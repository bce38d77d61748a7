-- ===== src/Prelude/Places.antt =====
-- What stands at a place of a list after an update, read backwards.
use Prim.Native.Nat.{ℕ, zero, suc}
use mathlib.Core.Path.{◌≡◌, refl, sym, ap}
use mathlib.Core.List.{List, [], ◌∷◌, map}
use mathlib.Core.Option.{some}
use native.Mathlib.Omega.{arith}
use os.Prelude.Tests.{◌==◌, if◌then◌else◌}
use os.Prelude.Lists.{get_elem?, modify}
use os.Prelude.Options.{some_inj, none≢some}

module _ {ℓ κ} {A : Type ℓ} {B : Type κ} where
  pub map_at :
      (xs : List A) (f : A → B) (j : ℕ) (y : B)
      → get_elem? (map f xs) j ≡ some y
      → (x : A) × (get_elem? xs j ≡ some x) × (y ≡ f x)
  map_at [] f j y e = absurd (none≢some e)
  map_at (x ∷ xs) f zero y e = (x, refl, sym (some_inj e))
  map_at (x ∷ xs) f (suc j) y e = map_at xs f j y e

  pub get_elem?-map :
      (xs : List A) (f : A → B) (j : ℕ) (x : A)
      → get_elem? xs j ≡ some x
      → get_elem? (map f xs) j ≡ some (f x)
  get_elem?-map [] f j x e = absurd (none≢some e)
  get_elem?-map (y ∷ xs) f zero x e = ap some (ap f (some_inj e))
  get_elem?-map (y ∷ xs) f (suc j) x e = get_elem?-map xs f j x e

module _ {ℓ} {A : Type ℓ} where
  pub modify_at :
      (xs : List A) (i : ℕ) (f : A → A) (j : ℕ) (y : A)
      → get_elem? (modify xs i f) j ≡ some y
      → (x : A) × (get_elem? xs j ≡ some x) × (y ≡ (if j == i then f x else x))
  modify_at [] i f j y e = absurd (none≢some e)
  modify_at (x ∷ xs) zero f zero y e = (x, refl, sym (some_inj e))
  modify_at (x ∷ xs) zero f (suc j) y e = (y, e, ground arith)
  modify_at (x ∷ xs) (suc i) f zero y e = (y, e, ground arith)
  modify_at (x ∷ xs) (suc i) f (suc j) y e =
      let (z, ez, q) = modify_at xs i f j y e in (z, ez, ground (arith, q))
