-- ===== src/Bio/Unique.antt =====
-- No sector is in two buffers, whatever is done with the cache.
use mathlib.Core.Path.{subst}
use os.Prelude.{
  ℕ, zero, suc, ◌+◌, ◌≤◌, ◌≡◌, ◌≢◌, refl, sym, ap, ◌∙◌, inl, inr, Bool, true, false, not, ◌&&◌,
  List, [], ◌∷◌, Option, none, some, arith, ◌==◌, leb, if◌then◌else◌, get_elem?, modify, set,
  some_inj, none≢some, Bool-cases, Option-cases,
}
use os.Bio.{
  Buf, Disk, no_dev, binit, is_for, set_busy, rebind, got, bget, iderw, fill, bwrite, unlink,
  put_first, brelse,
}
use os.Bio.Choice.{Gets, NotCached, bget-Gets}

-- How many buffers are for a sector.
abbrev pub copies : ℕ → ℕ → List Buf → ℕ
copies dev sector [] = 0
copies dev sector (b ∷ bs) =
    if is_for dev sector b then 1 + copies dev sector bs else copies dev sector bs

abbrev pub Unique : List Buf → Type 0
Unique bs = (dev sector : ℕ) → dev ≢ no_dev → copies dev sector bs ≤ 1

-- What is done with the cache: the sources' dev is never -1.
pub data Move (bs : List Buf) : List Buf → Type 0 where
  gets :
      (dev sector i : ℕ) (bs' : List Buf)
      → dev ≢ no_dev
      → bget dev sector bs ≡ got i bs'
      → Move bs bs'
  releases : (i : ℕ) (bs' : List Buf) → brelse bs i ≡ some bs' → Move bs bs'
  reads :
      (i : ℕ) (b b' : Buf) (disk disk' : Disk)
      → get_elem? bs i ≡ some b
      → fill b disk ≡ some (b', disk')
      → Move bs (set bs i b')
  writes :
      (i : ℕ) (b b' : Buf) (disk disk' : Disk)
      → get_elem? bs i ≡ some b
      → bwrite b disk ≡ some (b', disk')
      → Move bs (set bs i b')
  edits :
      (i : ℕ) (b : Buf) (bytes : List ℕ)
      → get_elem? bs i ≡ some b
      → Move bs (set bs i (record b { bytes = bytes; dirty = true }))

pub data Reach (bs : List Buf) : List Buf → Type 0 where
  here : Reach bs bs
  then_move : (bs' bs'' : List Buf) → Reach bs bs' → Move bs' bs'' → Reach bs bs''

copies-set :
    (d s : ℕ) (bs : List Buf) (i : ℕ) (b b' : Buf)
    → get_elem? bs i ≡ some b
    → is_for d s b' ≡ is_for d s b
    → copies d s (set bs i b') ≡ copies d s bs
copies-set d s [] i b b' e f = refl
copies-set d s (c ∷ bs) zero b b' e f = rw (f, some_inj e) refl
copies-set d s (c ∷ bs) (suc i) b b' e f = let rest = copies-set d s bs i b b' e f in ground arith

copies-set_busy :
    (d s : ℕ) (bs : List Buf) (i : ℕ) → copies d s (modify bs i set_busy) ≡ copies d s bs
unfolding set_busy
copies-set_busy d s [] i = refl
copies-set_busy d s (b ∷ bs) zero = refl
copies-set_busy d s (b ∷ bs) (suc i) = let rest = copies-set_busy d s bs i in ground arith

copies-modify :
    (d s : ℕ) (bs : List Buf) (i : ℕ) (g : Buf → Buf)
    → copies d s (modify bs i g) ≤ 1 + copies d s bs
copies-modify d s [] i g = ground arith
copies-modify d s (b ∷ bs) zero g = ground arith
copies-modify d s (b ∷ bs) (suc i) g = let rest = copies-modify d s bs i g in ground arith

copies-rebind :
    (d s dev sector : ℕ) (bs : List Buf) (i : ℕ)
    → (d == dev && s == sector) ≡ false
    → copies d s (modify bs i (rebind dev sector)) ≤ copies d s bs
unfolding rebind
copies-rebind d s dev sector [] i h = ground arith
copies-rebind d s dev sector (b ∷ bs) zero h = ground arith
copies-rebind d s dev sector (b ∷ bs) (suc i) h =
    let rest = copies-rebind d s dev sector bs i h in ground arith

copies-NotCached :
    (dev sector : ℕ) (bs : List Buf) → NotCached dev sector bs → copies dev sector bs ≡ 0
copies-NotCached dev sector [] all = refl
copies-NotCached dev sector (b ∷ bs) all =
    rw (all 0 b refl) (copies-NotCached dev sector bs (λ k c e. all (suc k) c e))

rebind-Unique :
    (dev sector : ℕ) (bs : List Buf) (i : ℕ)
    → Unique bs
    → NotCached dev sector bs
    → Unique (modify bs i (rebind dev sector))
rebind-Unique dev sector bs i u all d s n = elim (Bool-cases (d == dev && s == sector)) [
  | inl e ↦
      let one : d ≡ dev = ground arith in
      let two : s ≡ sector = ground arith in
      let z = copies-NotCached dev sector bs all in
      rw (one, two) (let m = copies-modify dev sector bs i (rebind dev sector) in omega arith)
  | inr e ↦ let m = copies-rebind d s dev sector bs i e in let o = u d s n in omega arith
]

Gets-Unique :
    (dev sector i : ℕ) (bs bs' : List Buf) → Unique bs → Gets dev sector bs (got i bs') → Unique bs'
Gets-Unique dev sector i bs bs' u (inl (b, e, (f, n, r))) d s h =
    rw (r, copies-set_busy d s bs i) (u d s h)
Gets-Unique dev sector i bs bs' u (inr (all, (b, e, (f, r)), rest)) d s h =
    rw r (rebind-Unique dev sector bs i u all d s h)

copies-unlink :
    (d s : ℕ) (bs : List Buf) (i : ℕ) (b : Buf) (rest : List Buf)
    → unlink bs i ≡ some (b, rest)
    → copies d s (b ∷ rest) ≡ copies d s bs
unfolding unlink
copies-unlink d s [] i b rest e = absurd (none≢some e)
copies-unlink d s (c ∷ bs) zero b rest e =
    rw (← ap (λ x. x.0) (some_inj e), ← ap (λ x. x.1) (some_inj e)) refl
copies-unlink d s (c ∷ bs) (suc i) b rest e = elim (Option-cases (unlink bs i)) [
  | inl q ↦ absurd (none≢some (rw q at e))
  | inr ((x, xs), q) ↦
      let same = some_inj (rw q at e) in
      let tail = copies-unlink d s bs i x xs q in
      rw (← ap (λ y. y.0) same, ← ap (λ y. y.1) same) (ground arith)
]

put_first-copies :
    (d s : ℕ) (bs bs' : List Buf) (i : ℕ) (r : Option (Buf × List Buf))
    → unlink bs i ≡ r
    → put_first r ≡ some bs'
    → copies d s bs' ≡ copies d s bs
unfolding put_first
put_first-copies d s bs bs' i none e h = absurd (none≢some h)
put_first-copies d s bs bs' i (some (b, rest)) e h = elim (Bool-cases b.busy) [
  | inl y ↦ rw (← some_inj (rw y at h)) (copies-unlink d s bs i b rest e)
  | inr n ↦ absurd (none≢some (rw n at h))
]

-- iderw works on the buffer's data and flags only.
abbrev SameSector : Buf → Option (Buf × Disk) → Type 0
SameSector b r =
    (b' : Buf) (disk' : Disk) → r ≡ some (b', disk') → (d s : ℕ) → is_for d s b' ≡ is_for d s b

guard-SameSector :
    (c : Bool) (b : Buf) (r : Option (Buf × Disk))
    → SameSector b r
    → SameSector b (if c then none else r)
guard-SameSector true b r same = λ b' disk' e. absurd (none≢some e)
guard-SameSector false b r same = same

some-SameSector :
    (b c : Buf) (disk : Disk)
    → ((d s : ℕ) → is_for d s c ≡ is_for d s b)
    → SameSector b (some (c, disk))
some-SameSector b c disk same b' disk' e d s =
    ap (λ x. is_for d s x.0) (sym (some_inj e)) ∙ same d s

branch-SameSector :
    (c : Bool) (b : Buf) (r r' : Option (Buf × Disk))
    → SameSector b r
    → SameSector b r'
    → SameSector b (if c then r else r')
branch-SameSector true b r r' one two = one
branch-SameSector false b r r' one two = two

iderw-SameSector : (b : Buf) (disk : Disk) → SameSector b (iderw b disk)
unfolding iderw
iderw-SameSector b disk = guard-SameSector (not b.busy) b _ (
    guard-SameSector (b.valid && not b.dirty) b _ (
      guard-SameSector (not (b.dev == 1)) b _ (
        guard-SameSector (leb disk.size b.sector) b _ (
          branch-SameSector b.dirty b _ _ (some-SameSector b _ _ (λ d s. refl))
            (some-SameSector b _ _ (λ d s. refl))))))

fill-SameSector : (b : Buf) (disk : Disk) → SameSector b (fill b disk)
unfolding fill
fill-SameSector b disk =
    branch-SameSector b.valid b _ _ (some-SameSector b b disk (λ d s. refl))
      (iderw-SameSector b disk)

bwrite-SameSector : (b : Buf) (disk : Disk) → SameSector b (bwrite b disk)
unfolding bwrite
bwrite-SameSector b disk =
    guard-SameSector (not b.busy) b _ (iderw-SameSector (record b { dirty = true }) disk)

binit-copies : (d s : ℕ) (zeroes : List ℕ) (n : ℕ) → d ≢ no_dev → copies d s (binit zeroes n) ≡ 0
unfolding binit
binit-copies d s zeroes zero h = refl
binit-copies d s zeroes (suc n) h = let rest = binit-copies d s zeroes n h in ground arith

Move-Unique : (bs bs' : List Buf) → Unique bs → Move bs bs' → Unique bs'
unfolding brelse
Move-Unique bs _ u (gets dev sector i bs' n e) =
    Gets-Unique dev sector i bs bs' u (subst (Gets dev sector bs) e (bget-Gets dev sector bs))
Move-Unique bs _ u (releases i bs' e) =
    λ d s n. rw (put_first-copies d s bs bs' i (unlink bs i) refl e) (u d s n)
Move-Unique bs _ u (reads i b b' disk disk' at e) =
    λ d s n. rw (copies-set d s bs i b b' at (fill-SameSector b disk b' disk' e d s)) (u d s n)
Move-Unique bs _ u (writes i b b' disk disk' at e) =
    λ d s n. rw (copies-set d s bs i b b' at (bwrite-SameSector b disk b' disk' e d s)) (u d s n)
Move-Unique bs _ u (edits i b bytes at) =
    λ d s n. rw (copies-set d s bs i b (record b { bytes = bytes; dirty = true }) at refl) (u d s n)

Reach-Unique : (bs bs' : List Buf) → Unique bs → Reach bs bs' → Unique bs'
Reach-Unique bs bs' u here = u
Reach-Unique bs _ u (then_move mid bs' before m) =
    Move-Unique mid bs' (Reach-Unique bs mid u before) m

-- From the cache as binit leaves it, whatever bget, brelse, reads, writes and changes of data are
-- made in whatever order, no sector is ever in two buffers of the cache.
pub cached_once : (zeroes : List ℕ) (n : ℕ) (bs : List Buf) → Reach (binit zeroes n) bs → Unique bs
cached_once zeroes n bs r =
    Reach-Unique (binit zeroes n) bs (λ d s h. rw (binit-copies d s zeroes n h) (omega arith)) r
