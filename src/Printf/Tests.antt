-- ===== src/Printf/Tests.antt =====
-- Numbers and formats, and the theorem at an input.
use os.Prelude.{◌-◌, ◌^◌, ◌≤◌, ◌≡◌, refl, true, false, [], ◌∷◌, ◌++◌, length, arith}
use os.Printf.{collect, printint, buf_size, convert, printf, atoi}
use os.Printf.Numbers.{atoi-printint}

minus_one : printint (2 ^ 32 - 1) 10 true ≡ 45 ∷ 49 ∷ []
unfolding printint collect
minus_one = refl

-- "%x=%d!" of 255 and 7
format_run :
    printf false
      (37 ∷ 120 ∷ 61 ∷ 37 ∷ 100 ∷ 33 ∷ [])
      (record { word = 255; text = [] } ∷ record { word = 7; text = [] } ∷ [])
    ≡ 70 ∷ 70 ∷ 61 ∷ 55 ∷ 33 ∷ []
unfolding printf convert printint collect
format_run = refl

atoi-printint_example :
    (atoi (printint 1234 10 true ++ 32 ∷ []) ≡ 1234) × (length (collect buf_size 10 1234) ≤ 10)
atoi-printint_example = atoi-printint 1234 true (32 ∷ []) (omega arith) refl
