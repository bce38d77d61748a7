-- ===== src/Log/Copies.antt =====
-- A loop of sector copies, as in install_trans and write_log, under a power cut at any point.
use os.Prelude.{ℕ, zero, suc, ◌+◌, ◌-◌, ◌≤◌, ◌<◌, ◌≡◌, ◌≢◌, refl, ◌∙◌, arith, for_range}
use native.Mathlib.Decide.{ℕ_discrete}
use os.Log.{Machine, Block, bread, bwrite, bwrite_powered, copy}

bwrite_powered_frame :
    (k : ℕ) (m : Machine) (a to : ℕ) (b : Block)
    → a ≢ to
    → ((bwrite_powered k m to b).disk a ≡ m.disk a)
      × (bread (bwrite_powered k m to b) a ≡ bread m a)
unfolding bwrite_powered bread
bwrite_powered_frame zero m a to b h = (refl, refl)
bwrite_powered_frame (suc k) m a to b h = (ground arith, ground arith)

bwrite_powered_self :
    (k : ℕ) (m : Machine) (to : ℕ) (b : Block)
    → 0 < k
    → ((bwrite_powered k m to b).disk to ≡ b) × (bread (bwrite_powered k m to b) to ≡ b)
unfolding bwrite_powered bread
bwrite_powered_self zero m to b h = absurd (omega arith)
bwrite_powered_self (suc k) m to b h = (ground arith, ground arith)

bwrite_powered_power :
    (k : ℕ) (m : Machine) (to : ℕ) (b : Block)
    → m.power ≡ k
    → (bwrite_powered k m to b).power ≡ k - 1
unfolding bwrite_powered
bwrite_powered_power zero m to b h = omega arith
bwrite_powered_power (suc k) m to b h = omega arith

-- A write leaves every other sector, and what is read from it, alone.
pub bwrite_frame :
    (m : Machine) (a to : ℕ) (b : Block)
    → a ≢ to
    → ((bwrite m to b).disk a ≡ m.disk a) × (bread (bwrite m to b) a ≡ bread m a)
unfolding bwrite
bwrite_frame m a to b h = bwrite_powered_frame m.power m a to b h

pub bwrite_self :
    (m : Machine) (to : ℕ) (b : Block)
    → 0 < m.power
    → ((bwrite m to b).disk to ≡ b) × (bread (bwrite m to b) to ≡ b)
unfolding bwrite
bwrite_self m to b h = bwrite_powered_self m.power m to b h

pub power-bwrite : (m : Machine) (to : ℕ) (b : Block) → (bwrite m to b).power ≡ m.power - 1
unfolding bwrite
power-bwrite m to b = bwrite_powered_power m.power m to b refl

pub bwrite_off : (m : Machine) (to : ℕ) (b : Block) → m.power ≡ 0 → bwrite m to b ≡ m
unfolding bwrite bwrite_powered
bwrite_off m to b h = rw (h, bwrite_powered)

-- What is read from the sector is what the disk holds.
abbrev pub Agrees : Machine → ℕ → Type 0
Agrees m a = bread m a ≡ m.disk a

bwrite_powered-Agrees :
    (k : ℕ) (m : Machine) (a to : ℕ) (b : Block) → Agrees m a → Agrees (bwrite_powered k m to b) a
unfolding bwrite_powered bread
bwrite_powered-Agrees zero m a to b h = h
bwrite_powered-Agrees (suc k) m a to b h = elim (ℕ_discrete to a) [
  | yes e ↦ ground arith
  | no ne ↦ ground (arith, h)
]

pub bwrite-Agrees : (m : Machine) (a to : ℕ) (b : Block) → Agrees m a → Agrees (bwrite m to b) a
unfolding bwrite
bwrite-Agrees m a to b h = bwrite_powered-Agrees m.power m a to b h

-- The sectors that a loop writes, and that it reads, for its rounds i to i + n - 1.
module _ (src dst : ℕ → ℕ) where
  abbrev pub copies : ℕ → ℕ → Machine → Machine
  copies n i m = for_range n i (λ t. copy (src t) (dst t)) m

  -- The rounds write nothing to `a`.
  abbrev pub Misses : ℕ → ℕ → ℕ → Type 0
  Misses n i a = (t : ℕ) → i ≤ t → t < i + n → a ≢ dst t

  pub copies_frame :
      (n i : ℕ) (m : Machine) (a : ℕ)
      → Misses n i a
      → ((copies n i m).disk a ≡ m.disk a) × (bread (copies n i m) a ≡ bread m a)
  unfolding for_range copy
  copies_frame zero i m a h = (refl, refl)
  copies_frame (suc n) i m a h =
      let first = bwrite_frame m a (dst i) (bread m (src i)) (h i (omega arith) (omega arith)) in
      let rest =
        copies_frame n (i + 1) (copy (src i) (dst i) m) a
          (λ t p q. h t (omega arith) (omega arith)) in
      (rest.0 ∙ first.0, rest.1 ∙ first.1)

  pub power-copies : (n i : ℕ) (m : Machine) → (copies n i m).power ≡ m.power - n
  unfolding for_range copy
  power-copies zero i m = omega arith
  power-copies (suc n) i m = omega (
    arith,
    power-copies n (i + 1) (copy (src i) (dst i) m),
    power-bwrite m (dst i) (bread m (src i)),
  )

  -- With power for all of its rounds, and its targets distinct and never read, the loop leaves at
  -- each target what was read from its source at the start.
  pub copies_all :
      (n i : ℕ) (m : Machine)
      → n ≤ m.power
      → ((s t : ℕ) → i ≤ s → s < i + n → i ≤ t → t < i + n → src s ≢ dst t)
      → ((s t : ℕ) → i ≤ s → s < t → t < i + n → dst s ≢ dst t)
      → (t : ℕ) → i ≤ t
      → t < i + n
      → (copies n i m).disk (dst t) ≡ bread m (src t)
  unfolding for_range copy
  copies_all zero i m p apart distinct t h k = absurd (omega arith)
  copies_all (suc n) i m p apart distinct t h k = elim (ℕ_discrete i t) [
    | yes e ↦ rw (← e) (
        (copies_frame n (i + 1) (copy (src i) (dst i) m) (dst i)
          (λ s q r. distinct i s (omega arith) (omega arith) (omega arith))).0
        ∙ (bwrite_self m (dst i) (bread m (src i)) (omega arith)).0)
    | no ne ↦
        copies_all n (i + 1) (copy (src i) (dst i) m)
          (omega (arith, power-bwrite m (dst i) (bread m (src i))))
          (λ s u a b c d. apart s u (omega arith) (omega arith) (omega arith) (omega arith))
          (λ s u a b c. distinct s u (omega arith) (omega arith) (omega arith)) t (omega arith)
          (omega arith)
        ∙ (bwrite_frame m (src t) (dst i) (bread m (src i))
            (apart t i (omega arith) (omega arith) (omega arith) (omega arith))).1
  ]

  -- Without power the loop does nothing.
  pub copies_off : (n i : ℕ) (m : Machine) → m.power ≡ 0 → copies n i m ≡ m
  unfolding for_range copy
  copies_off zero i m e = refl
  copies_off (suc n) i m e =
      rw (bwrite_off m (dst i) (bread m (src i)) e) (copies_off n (i + 1) m e)

  -- A sector that the cache and the disk agree on stays one.
  pub copies-Agrees : (n i : ℕ) (m : Machine) (a : ℕ) → Agrees m a → Agrees (copies n i m) a
  unfolding for_range copy
  copies-Agrees zero i m a h = h
  copies-Agrees (suc n) i m a h =
      copies-Agrees n (i + 1) (copy (src i) (dst i) m) a
        (bwrite-Agrees m a (dst i) (bread m (src i)) h)
