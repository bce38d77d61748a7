-- ===== src/Proc/Exit/Handover.antt =====
-- The loop of exit that hands children over to init.
use os.Prelude.{
  ℕ, zero, suc, ◌≡◌, ◌≢◌, ap, true, false, List, [], ◌∷◌, some, get_elem?, arith, some_inj,
  none≢some,
}
use mathlib.Core.Option
use os.Proc.{zombie, Proc, same_place}
use os.Proc.Exit.{adopt, adopt_all, NoChildren}

adopt_parent :
    (init cur : ℕ) (low : List ℕ) (p : Proc)
    → init ≢ cur
    → same_place (adopt init cur low p).parent cur ≡ false
unfolding adopt
adopt_parent init cur low p ne = ground arith

-- A child that has exited stays ZOMBIE, whatever is found for its threads.
pub adopt_exited :
    (init cur : ℕ) (low : List ℕ) (p : Proc)
    → same_place p.parent cur ≡ true
    → p.state ≡ zombie
    → adopt init cur low p ≡ record p { parent = some init }
unfolding adopt
adopt_exited init cur low p h z = ground arith

pub adopt_table : (init cur : ℕ) (low : List ℕ) (p : Proc) → (adopt init cur low p).table ≡ p.table
unfolding adopt
adopt_table init cur low p = ground arith

-- What adopt_all leaves at a place.
pub adopt_all_at :
    (init cur : ℕ) (low : List ℕ) (ps : List Proc) (i : ℕ) (p : Proc)
    → get_elem? ps i ≡ some p
    → get_elem? (adopt_all init cur low ps) i ≡ some (adopt init cur low p)
unfolding adopt_all
adopt_all_at init cur low [] i p h = cc
adopt_all_at init cur low (q ∷ ps) zero p h = ap (Option.map (adopt init cur low)) h
adopt_all_at init cur low (q ∷ ps) (suc i) p h = adopt_all_at init cur low ps i p h

pub NoChildren-cons :
    (cur : ℕ) (p : Proc) (ps : List Proc)
    → same_place p.parent cur ≡ false
    → NoChildren cur ps
    → NoChildren cur (p ∷ ps)
NoChildren-cons cur p ps h n zero q e = rw (← some_inj e) h
NoChildren-cons cur p ps h n (suc i) q e = n i q e

pub adopt_all-NoChildren :
    (init cur : ℕ) (low : List ℕ) (ps : List Proc)
    → init ≢ cur
    → NoChildren cur (adopt_all init cur low ps)
unfolding adopt_all
adopt_all-NoChildren init cur low [] ne = λ i p h. absurd (none≢some h)
adopt_all-NoChildren init cur low (q ∷ ps) ne =
    NoChildren-cons cur (adopt init cur low q) (adopt_all init cur low ps)
      (adopt_parent init cur low q ne) (adopt_all-NoChildren init cur low ps ne)
