-- ===== src/Bio/Release.antt =====
-- brelse: a buffer that is let go becomes the one used last.
use os.Prelude.{
  ℕ, zero, suc, ◌≡◌, refl, sym, ap, ◌∙◌, inl, inr, true, false, List, [], ◌∷◌, ◌++◌, Option, none,
  some, get_elem?, take, drop, some_inj, none≢some, Bool-cases,
}
use os.Bio.{Buf, unlink, put_first, brelse}

-- The buffer at place i, and the others in their order.
abbrev Unlinks : List Buf → ℕ → Option (Buf × List Buf) → Type 0
Unlinks bs i none = get_elem? bs i ≡ none
Unlinks bs i (some (b, rest)) = (get_elem? bs i ≡ some b) × (rest ≡ take i bs ++ drop (suc i) bs)

unlink-Unlinks : (bs : List Buf) (i : ℕ) → Unlinks bs i (unlink bs i)
unfolding unlink
unlink-Unlinks [] i = refl
unlink-Unlinks (b ∷ bs) zero = (refl, refl)
unlink-Unlinks (b ∷ bs) (suc i) = further b bs i (unlink bs i) (unlink-Unlinks bs i)
  where
    further :
        (b : Buf) (bs : List Buf) (i : ℕ) (r : Option (Buf × List Buf))
        → Unlinks bs i r
        → Unlinks (b ∷ bs) (suc i) (elim r [ none ↦ none | some (x, rest) ↦ some (x, b ∷ rest) ])
    further b bs i none h = h
    further b bs i (some (x, rest)) (h, r) = (h, ap (λ xs. b ∷ xs) r)

-- What an answer of brelse says.
abbrev pub Releases : List Buf → ℕ → Option (List Buf) → Type 0
Releases bs i none = (b : Buf) → get_elem? bs i ≡ some b → b.busy ≡ false
Releases bs i (some bs') =
    (b : Buf) × (get_elem? bs i ≡ some b)
    × (b.busy ≡ true)
    × (bs' ≡ record b { busy = false } ∷ (take i bs ++ drop (suc i) bs))

put_first-Releases :
    (bs : List Buf) (i : ℕ) (r : Option (Buf × List Buf))
    → Unlinks bs i r
    → Releases bs i (put_first r)
unfolding put_first
put_first-Releases bs i none h = λ b e. absurd (none≢some (sym h ∙ e))
put_first-Releases bs i (some (b, rest)) (h, r) = elim (Bool-cases b.busy) [
  | inl y ↦ rw y (b, h, y, ap (λ xs. record b { busy = false } ∷ xs) r)
  | inr n ↦ rw n (λ c e. ap (λ x. x.busy) (some_inj (sym e ∙ h)) ∙ n)
]

-- brelse panics just if the buffer is not busy. Else the buffer is not busy any more and comes
-- first, as the one used last, and all others follow in the order they had.
pub brelse-Releases : (bs : List Buf) (i : ℕ) → Releases bs i (brelse bs i)
unfolding brelse
brelse-Releases bs i = put_first-Releases bs i (unlink bs i) (unlink-Unlinks bs i)
