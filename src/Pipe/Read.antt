-- ===== src/Pipe/Read.antt =====
-- piperead: which bytes the caller gets, and what stays in the pipe.
use os.Prelude.{
  ℕ, zero, suc, ◌≡◌, ◌≢◌, refl, Bool, true, false, List, [], ◌∷◌, take, drop, take-nil, drop-nil,
  sym, ap, ◌⊎◌, inl, inr, Bool-cases, arith,
}
use os.Pipe.{
  Pipe, Sleepers, ReadResult, got, failed, asleep, advance, is_empty, read_loop, after_loop_test,
  piperead,
}
use os.Pipe.Contents.{IsValid, count, contents, advance-IsValid, contents-advance, contents_empty}

pub is_empty-count : (p : Pipe) → IsValid p → is_empty p ≡ true → count p ≡ 0
is_empty-count p v e = ground arith

is_empty-ne : (p : Pipe) → IsValid p → is_empty p ≡ false → count p ≢ 0
is_empty-ne p v e = ground arith

-- What a read of at most `n` bytes takes, and what it leaves.
pub record Reads (n : ℕ) (p : Pipe) (bs : List ℕ) (p' : Pipe) : Type 0 where
  pub valid : IsValid p'
  pub taken : bs ≡ take n (contents p)
  pub left : contents p' ≡ drop n (contents p)
  pub readopen : p'.readopen ≡ p.readopen
  pub writeopen : p'.writeopen ≡ p.writeopen
  pub nwrite : p'.nwrite ≡ p.nwrite

Reads-empty : (n : ℕ) (p : Pipe) → IsValid p → contents p ≡ [] → Reads n p [] p
Reads-empty n p v e = record {
  valid = v;
  taken = rw e (sym (take-nil n));
  left = rw e (sym (drop-nil n));
  readopen = refl;
  writeopen = refl;
  nwrite = refl;
}

Reads-suc :
    (n : ℕ) (p p' : Pipe) (b : ℕ) (bs : List ℕ)
    → contents p ≡ b ∷ contents (advance p)
    → Reads n (advance p) bs p'
    → Reads (suc n) p (b ∷ bs) p'
unfolding advance
Reads-suc n p p' b bs e r = record {
  valid = r.valid;
  taken = rw e (ap (λ t. b ∷ t) r.taken);
  left = rw e r.left;
  readopen = r.readopen;
  writeopen = r.writeopen;
  nwrite = r.nwrite;
}

pub read_loop-Reads :
    (n : ℕ) (p : Pipe) → IsValid p → let (bs, p') = read_loop n p in Reads n p bs p'
unfolding read_loop
read_loop-Reads zero p v = record {
  valid = v;
  taken = refl;
  left = refl;
  readopen = refl;
  writeopen = refl;
  nwrite = refl;
}
read_loop-Reads (suc n) p v = elim (Bool-cases (is_empty p)) [
  | inl e ↦ rw e (Reads-empty (suc n) p v (contents_empty p (is_empty-count p v e)))
  | inr e ↦ rw e (
      Reads-suc n p _ _ _ (contents-advance p v (is_empty-ne p v e))
        (read_loop-Reads n (advance p) (advance-IsValid p v (is_empty-ne p v e))))
]

-- What piperead answers, with the pipe that it leaves.
abbrev pub Answers : Bool → ℕ → Pipe → ReadResult → Pipe → Type 0
Answers killed n p (got bs) p' = Reads n p bs p' × ((contents p ≢ []) ⊎ (p.writeopen ≡ false))
Answers killed n p failed p' = (p' ≡ p) × (contents p ≡ []) × (p.writeopen ≡ true) × (killed ≡ true)
Answers killed n p asleep p' =
    (p' ≡ p) × (contents p ≡ []) × (p.writeopen ≡ true) × (killed ≡ false)

nonempty : (p : Pipe) → IsValid p → count p ≢ 0 → contents p ≢ []
nonempty p v ne e = cc (sym (contents-advance p v ne), e)

-- The branches of piperead where the counters are equal.
from_empty :
    (killed w : Bool) (p : Pipe) (s : Sleepers) (n : ℕ)
    → IsValid p
    → contents p ≡ []
    → p.writeopen ≡ w
    → let (r, p', _) = after_loop_test killed w p s n in Answers killed n p r p'
unfolding after_loop_test
from_empty true true p s n v e o = (refl, e, o, refl)
from_empty false true p s n v e o = (refl, e, o, refl)
from_empty true false p s n v e o = (read_loop-Reads n p v, inr o)
from_empty false false p s n v e o = (read_loop-Reads n p v, inr o)

-- piperead takes the first bytes of the pipe, at most n of them, and leaves the rest in order; it
-- does so whenever the pipe holds a byte or no writer is left. From an empty pipe with a writer it
-- takes nothing: it answers -1 to a killed caller, and puts any other to sleep.
pub piperead-Answers :
    (killed : Bool) (p : Pipe) (s : Sleepers) (n : ℕ)
    → IsValid p
    → let (r, p', _) = piperead killed p s n in Answers killed n p r p'
unfolding piperead
piperead-Answers killed p s n v = elim (Bool-cases (is_empty p)) [
  | inl e ↦
      rw e (from_empty killed p.writeopen p s n v (contents_empty p (is_empty-count p v e)) refl)
  | inr e ↦ rw e (read_loop-Reads n p v, inl (nonempty p v (is_empty-ne p v e)))
]
