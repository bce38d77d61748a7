-- ===== src/Bio/Choice.antt =====
-- bget: which buffer it takes.
use os.Prelude.{
  ℕ, zero, suc, ◌+◌, ◌≤◌, ◌≡◌, refl, sym, ap, ◌∙◌, ◌⊎◌, inl, inr, Bool, true, false, List, [], ◌∷◌,
  Option, none, some, arith, get_elem?, modify, some_inj, none≢some, Bool-cases,
}
use os.Bio.{
  Buf, is_for, is_spare, find_cached, or_here, find_spare, set_busy, rebind, Get, panicked, sleeps,
  got, take_cached, take_spare, bget_at, bget,
}

-- No buffer is for the sector.
abbrev pub NotCached : ℕ → ℕ → List Buf → Type 0
NotCached dev sector bs = (k : ℕ) (b : Buf) → get_elem? bs k ≡ some b → is_for dev sector b ≡ false

-- No buffer from place i on is spare.
abbrev pub NoneSpare : ℕ → List Buf → Type 0
NoneSpare i bs = (k : ℕ) (b : Buf) → i ≤ k → get_elem? bs k ≡ some b → is_spare b ≡ false

abbrev pub At : List Buf → ℕ → (Buf → Type 0) → Type 0
At bs i P = (b : Buf) × (get_elem? bs i ≡ some b) × P b

abbrev Cached : ℕ → ℕ → List Buf → ℕ → Option ℕ → Type 0
Cached dev sector bs i none = NotCached dev sector bs
Cached dev sector bs i (some j) = (k : ℕ) × (j ≡ i + k) × At bs k (λ b. is_for dev sector b ≡ true)

NotCached-cons :
    (dev sector : ℕ) (b : Buf) (bs : List Buf)
    → is_for dev sector b ≡ false
    → NotCached dev sector bs
    → NotCached dev sector (b ∷ bs)
NotCached-cons dev sector b bs h all zero c e = ap (is_for dev sector) (sym (some_inj e)) ∙ h
NotCached-cons dev sector b bs h all (suc k) c e = all k c e

Cached-cons :
    (dev sector i : ℕ) (b : Buf) (bs : List Buf) (r : Option ℕ)
    → is_for dev sector b ≡ false
    → Cached dev sector bs (i + 1) r
    → Cached dev sector (b ∷ bs) i r
Cached-cons dev sector i b bs none h all = NotCached-cons dev sector b bs h all
Cached-cons dev sector i b bs (some j) h (k, e, at) = (suc k, omega arith, at)

find_cached-Cached :
    (dev sector : ℕ) (bs : List Buf) (i : ℕ) → Cached dev sector bs i (find_cached dev sector bs i)
unfolding find_cached
find_cached-Cached dev sector [] i = λ k b e. absurd (none≢some e)
find_cached-Cached dev sector (b ∷ bs) i = elim (Bool-cases (is_for dev sector b)) [
  | inl e ↦ rw e (0, omega arith, (b, refl, e))
  | inr e ↦
      let rest = find_cached-Cached dev sector bs (i + 1) in
      rw e (Cached-cons dev sector i b bs (find_cached dev sector bs (i + 1)) e rest)
]

-- The last spare buffer, or that there is none.
abbrev Spare : List Buf → ℕ → Option ℕ → Type 0
Spare bs i none = NoneSpare 0 bs
Spare bs i (some j) =
    (k : ℕ) × (j ≡ i + k) × At bs k (λ b. is_spare b ≡ true) × NoneSpare (suc k) bs

NoneSpare-cons : (i : ℕ) (b : Buf) (bs : List Buf) → NoneSpare i bs → NoneSpare (suc i) (b ∷ bs)
NoneSpare-cons i b bs all zero c h e = absurd (omega arith)
NoneSpare-cons i b bs all (suc k) c h e = all k c (omega arith) e

NoneSpare-all :
    (b : Buf) (bs : List Buf) → is_spare b ≡ false → NoneSpare 0 bs → NoneSpare 0 (b ∷ bs)
NoneSpare-all b bs s all zero c h e = ap is_spare (sym (some_inj e)) ∙ s
NoneSpare-all b bs s all (suc k) c h e = all k c (omega arith) e

or_here-Spare :
    (b : Buf) (bs : List Buf) (i : ℕ) (s : Bool) (r : Option ℕ)
    → is_spare b ≡ s
    → Spare bs (i + 1) r
    → Spare (b ∷ bs) i (or_here s i r)
unfolding or_here
or_here-Spare b bs i s (some j) e (k, at, found, later) =
    (suc k, omega arith, found, NoneSpare-cons (suc k) b bs later)
or_here-Spare b bs i true none e all = (0, omega arith, (b, refl, e), NoneSpare-cons 0 b bs all)
or_here-Spare b bs i false none e all = NoneSpare-all b bs e all

find_spare-Spare : (bs : List Buf) (i : ℕ) → Spare bs i (find_spare bs i)
unfolding find_spare
find_spare-Spare [] i = λ k b h e. absurd (none≢some e)
find_spare-Spare (b ∷ bs) i =
    or_here-Spare b bs i (is_spare b) (find_spare bs (i + 1)) refl (find_spare-Spare bs (i + 1))

-- What an outcome of bget says: the buffer taken, as it was, and what became of it.
abbrev pub Gets : ℕ → ℕ → List Buf → Get → Type 0
Gets dev sector bs panicked = NotCached dev sector bs × NoneSpare 0 bs
Gets dev sector bs (sleeps i) = At bs i (λ b. (is_for dev sector b ≡ true) × (b.busy ≡ true))
Gets dev sector bs (got i bs') =
    At bs i (λ b. (is_for dev sector b ≡ true) × (b.busy ≡ false) × (bs' ≡ modify bs i set_busy))
    ⊎ (NotCached dev sector bs
        × At bs i (λ b. (is_spare b ≡ true) × (bs' ≡ modify bs i (rebind dev sector)))
        × NoneSpare (suc i) bs)

take_cached-Gets :
    (dev sector i : ℕ) (bs : List Buf) (b : Buf)
    → get_elem? bs i ≡ some b
    → is_for dev sector b ≡ true
    → Gets dev sector bs (take_cached bs i (some b))
unfolding take_cached
take_cached-Gets dev sector i bs b e f = elim (Bool-cases b.busy) [
  | inl y ↦ rw y (b, e, (f, y))
  | inr n ↦ rw n (inl (b, e, (f, n, refl)))
]

take_spare-Gets :
    (dev sector : ℕ) (bs : List Buf) (r : Option ℕ)
    → NotCached dev sector bs
    → Spare bs 0 r
    → Gets dev sector bs (take_spare dev sector bs r)
unfolding take_spare
take_spare-Gets dev sector bs none all spare = (all, spare)
take_spare-Gets dev sector bs (some i) all (k, e, (b, at, s), later) =
    let same : k ≡ i = omega arith in
    inr (all, (b, ap (get_elem? bs) (sym same) ∙ at, (s, refl)), λ n c h. later n c (omega arith))

bget_at-Gets :
    (dev sector : ℕ) (bs : List Buf) (r : Option ℕ)
    → Cached dev sector bs 0 r
    → Gets dev sector bs (bget_at dev sector bs r)
unfolding bget_at
bget_at-Gets dev sector bs none all =
    take_spare-Gets dev sector bs (find_spare bs 0) all (find_spare-Spare bs 0)
bget_at-Gets dev sector bs (some i) (k, e, (b, at, f)) =
    let same : k ≡ i = omega arith in
    let here = ap (get_elem? bs) (sym same) ∙ at in
    rw here (take_cached-Gets dev sector i bs b here f)

-- bget takes the buffer that caches the sector if there is one and it is not busy, and sleeps on it
-- if it is. If none caches it, it takes the least recently used of those that are neither busy nor
-- dirty, for the new sector, and panics just if all are one or the other. No other buffer changes.
pub bget-Gets : (dev sector : ℕ) (bs : List Buf) → Gets dev sector bs (bget dev sector bs)
unfolding bget
bget-Gets dev sector bs =
    bget_at-Gets dev sector bs (find_cached dev sector bs 0) (find_cached-Cached dev sector bs 0)
