-- ===== src/Printf.antt =====
-- printf.c, and atoi of ulib.c. An argument of printf is an uint; a string argument is the list of its
-- characters. What is written is the list of the characters that putc gets.
pub mod Numbers
mod Tests
use mathlib.Core.List.{reverse}
use os.Prelude.{
  ℕ, zero, suc, ◌+◌, ◌-◌, ◌*◌, ◌/◌, ◌%◌, ◌^◌, Bool, true, false, ◌&&◌, ◌||◌, List, [], ◌∷◌, ◌++◌,
  ◌==◌, ltb, leb, if◌then◌else◌,
}

-- digits[d] of "0123456789ABCDEF"
abbrev pub digit : ℕ → ℕ
digit d = if ltb d 10 then 48 + d else 55 + d

-- sizeof buf
abbrev pub buf_size : ℕ
buf_size = 16

-- What the do loop leaves in buf, from buf[0] on, for at most so many rounds.
pub collect : ℕ → ℕ → ℕ → List ℕ
collect zero base x = []
collect (suc rounds) base x =
    let more = collect rounds base (x / base) in
    digit (x % base) ∷ (if x / base == 0 then [] else more)

-- xx is the bits of an int; the buffer is written from its end, after the sign.
pub printint : ℕ → ℕ → Bool → List ℕ
printint xx base sgn =
    if sgn && leb (2 ^ 31) xx
    then 45 ∷ reverse (collect buf_size base ((2 ^ 32 - xx) % 2 ^ 32))
    else reverse (collect buf_size base xx)

-- An argument of printf: what stands at *ap, and the string there if it is taken as a pointer,
-- `[]` unless it is one.
pub record Arg : Type 0 where
  pub word : ℕ
  pub text : List ℕ

-- "(null)"
abbrev pub null_text : List ℕ
null_text = 40 ∷ 110 ∷ 117 ∷ 108 ∷ 108 ∷ 41 ∷ []

-- A missing argument is whatever stands on the stack; here it is 0.
abbrev pub first_arg : List Arg → Arg
first_arg [] = record { word = 0; text = [] }
first_arg (a ∷ args) = a

abbrev pub rest_args : List Arg → List Arg
rest_args [] = []
rest_args (a ∷ args) = args

-- What a conversion writes, and whether it takes an argument.
pub convert : ℕ → Arg → List ℕ × Bool
convert c a =
    if c == 100
    then (printint a.word 10 true, true)
    else if c == 120 || c == 112
    then (printint a.word 16 false, true)
    else if c == 115
    then (if a.word == 0 then null_text else a.text, true)
    else if c == 99
    then (a.word % 256 ∷ [], true)
    else if c == 37
    then (c ∷ [], false)
    else (37 ∷ c ∷ [], false)

-- The loop of printf; the Boolean is its state, whether a '%' came last.
pub printf : Bool → List ℕ → List Arg → List ℕ
printf in_conversion [] args = []
printf false (c ∷ fmt) args = if c == 37 then printf true fmt args else c ∷ printf false fmt args
printf true (c ∷ fmt) args =
    let (written, takes) = convert c (first_arg args) in
    written ++ printf false fmt (if takes then rest_args args else args)

-- The loop of atoi; n is the bits of an int.
pub atoi_from : ℕ → List ℕ → ℕ
atoi_from n [] = n
atoi_from n (c ∷ s) =
    let more = atoi_from ((n * 10 + c + 2 ^ 32 - 48) % 2 ^ 32) s in
    if leb 48 c && leb c 57 then more else n

pub atoi : List ℕ → ℕ
atoi s = atoi_from 0 s
