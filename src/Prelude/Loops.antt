-- ===== src/Prelude/Loops.antt =====
-- The counted loop of C.
use Prim.Native.Nat.{ℕ, zero, suc, ◌+◌}
use mathlib.Core.Path.{◌≡◌, refl}
use native.Mathlib.Omega.{arith}

-- A `for` that counts up by one: so many rounds, from this index on, of this loop body.
unfoldable pub for_range {ℓ} : {State : Type ℓ} → ℕ → ℕ → (ℕ → State → State) → State → State
for_range zero at round st = st
for_range (suc left) at round st = for_range left (at + 1) round (round at st)

pub for_range_zero {ℓ} :
    {State : Type ℓ} (left at : ℕ) (round : ℕ → State → State) (st : State)
    → left ≡ 0
    → for_range left at round st ≡ st
unfolding for_range
for_range_zero zero at round st e = refl
for_range_zero (suc left) at round st e = absurd (omega arith)
