-- ===== src/Printf/Numbers.antt =====
-- Decimal numbers: printf writes what atoi reads.
use mathlib.Core.List.{reverse, reverse-cons, append_assoc}
use os.Prelude.{
  ℕ, zero, suc, ◌+◌, ◌-◌, ◌*◌, ◌/◌, ◌%◌, ◌^◌, ◌≤◌, ◌<◌, ◌≡◌, refl, ap, ◌∙◌, inl, inr, Bool, true,
  false, ◌&&◌, List, [], ◌∷◌, ◌++◌, arith, ◌==◌, leb, Bool-cases, length, leb_of_lt, leb_of_le,
  lt→ltb, ==_of_eq,
}
use os.Printf.{digit, collect, printint, buf_size, atoi_from, atoi}

-- Numbers below this have at most k + 1 digits.
abbrev pub limit : ℕ → ℕ
limit zero = 10
limit (suc k) = 10 * limit k

-- A string that does not go on with a digit.
abbrev pub EndsNumber : List ℕ → Type 0
EndsNumber [] = Unit {0}
EndsNumber (c ∷ s) = (leb 48 c && leb c 57) ≡ false

atoi_from-digit :
    (n d : ℕ) (s : List ℕ)
    → d < 10
    → n * 10 + d < 2 ^ 32
    → atoi_from n (digit d ∷ s) ≡ atoi_from (n * 10 + d) s
unfolding atoi_from
atoi_from-digit n d s h l =
    let value : (n * 10 + (48 + d) + 2 ^ 32 - 48) % 2 ^ 32 ≡ n * 10 + d = omega arith in
    rw
      (
        lt→ltb d 10 h,
        leb_of_le 48 (48 + d) (omega arith),
        leb_of_le (48 + d) 57 (omega arith),
        value,
      )
      refl

last_digit :
    (rounds x : ℕ) (s : List ℕ)
    → x < 10
    → atoi_from 0 (reverse (collect (suc rounds) 10 x) ++ s) ≡ atoi_from x s
unfolding collect
last_digit rounds x s h =
    let none_left : (x / 10 == 0) ≡ true = ==_of_eq (x / 10) 0 (omega arith) in
    let d = atoi_from-digit 0 (x % 10) s (omega arith) (omega arith) in
    rw none_left (d ∙ ap (λ n. atoi_from n s) (omega arith))

-- The digits of x, from the most significant one on, have the value x.
collect_value :
    (k rounds x : ℕ) (s : List ℕ)
    → x < limit k
    → k < rounds
    → x < 2 ^ 32
    → atoi_from 0 (reverse (collect rounds 10 x) ++ s) ≡ atoi_from x s
unfolding collect
collect_value k zero x s h r l = absurd (omega arith)
collect_value zero (suc rounds) x s h r l = last_digit rounds x s h
collect_value (suc k) (suc rounds) x s h r l = elim (Bool-cases (x / 10 == 0)) [
  | inl e ↦ last_digit rounds x s (ground arith)
  | inr e ↦
      let before =
        collect_value k rounds (x / 10) (digit (x % 10) ∷ s) (omega arith) (omega arith)
          (omega arith) in
      let d = atoi_from-digit (x / 10) (x % 10) s (omega arith) (omega arith) in
      rw (e, reverse-cons, append_assoc) (before ∙ d ∙ ap (λ n. atoi_from n s) (omega arith))
]

length-collect : (k rounds x : ℕ) → x < limit k → length (collect rounds 10 x) ≤ suc k
unfolding collect
length-collect k zero x h = omega arith
length-collect zero (suc rounds) x h = rw (==_of_eq (x / 10) 0 (omega arith)) (omega arith)
length-collect (suc k) (suc rounds) x h =
    let rest = length-collect k rounds (x / 10) (omega arith) in ground arith

stops : (n : ℕ) (s : List ℕ) → EndsNumber s → atoi_from n s ≡ n
unfolding atoi_from
stops n [] h = refl
stops n (c ∷ s) h = rw h refl

-- What printint writes in decimal for an int that is not negative, atoi reads back, whatever
-- follows it that is no digit; and the buffer of printint has room for its ten digits at most.
pub atoi-printint :
    (x : ℕ) (sgn : Bool) (s : List ℕ)
    → x < 2 ^ 31
    → EndsNumber s
    → (atoi (printint x 10 sgn ++ s) ≡ x) × (length (collect buf_size 10 x) ≤ 10)
unfolding atoi printint
atoi-printint x sgn s h e =
    let value = collect_value 9 buf_size x s (omega arith) (omega arith) (omega arith) in
    (
      rw (leb_of_lt (2 ^ 31) x h, and_false sgn) (value ∙ stops x s e),
      length-collect 9 buf_size x (omega arith),
    )
  where
    and_false : (b : Bool) → (b && false) ≡ false
    and_false true = refl
    and_false false = refl
