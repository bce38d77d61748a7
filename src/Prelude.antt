-- ===== src/Prelude.antt =====
-- The names that the other modules share: those of the libraries, passed on, and those of its children.
mod Tests
mod Lists
mod Loops
mod Options
mod Places
pub use Tests.*
pub use Lists.*
pub use Options.*
pub use Places.*
unfoldable pub use Loops.{for_range}
pub use Loops.{for_range_zero}
pub use Prim.Native.Nat.{ℕ, zero, suc, ◌+◌, ◌-◌, ◌*◌, ◌/◌, ◌%◌, ◌^◌, ◌≤◌, ◌<◌, min}
pub use mathlib.Core.Path.{◌≡◌, refl, sym, ap, ◌∙◌}
pub use mathlib.Core.Logic.{◌≢◌, ◌↔◌, ◌⊎◌, inl, inr}
pub use mathlib.Core.Bool.{Bool, true, false, not, ◌&&◌, ◌||◌}
pub use mathlib.Core.Option.{Option, none, some}
pub use mathlib.Core.List.{List, [], ◌∷◌, ◌++◌, map}
pub use native.Mathlib.Omega.{arith}
