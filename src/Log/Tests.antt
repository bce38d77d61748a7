-- ===== src/Log/Tests.antt =====
-- Runs of the log on a small disk, and its theorems at concrete inputs.
use os.Prelude.{
  ◌+◌, ℕ, zero, suc, ◌<◌, ◌≡◌, ◌≢◌, refl, true, false, [], ◌∷◌, none, some, replicate, get_or, sym,
  ==_of_ne, arith, ◌==◌, if◌then◌else◌,
}
use os.Log.{find_sector, Machine, Log, Block, bread, commit, log_write, update}
use os.Log.Install.{Placed, Settled, Untouched}
use os.Log.Boot.{Located}
use os.Log.Commit.{IsReady, recovered, commit_atomic}
use os.Log.Write.{log_write-IsReady}
use os.Log.Reserve.Overrun.{reservation_overrun}
use os.Log.Reserve.{Sys, Reserved, Reach}

abbrev blank : Block
blank = replicate 128 0

-- A disk of 64 sectors whose last 32 are the log.
abbrev super_block : Block
super_block = 64 ∷ 20 ∷ 8 ∷ 32 ∷ []

abbrev image : ℕ → Block
image a = if a == 1 then super_block else blank

abbrev data_block : Block
data_block = replicate 128 7

-- Sector 5 is logged, and the power fails after two more writes.
abbrev one_logged : Log
one_logged = record {
  start = 32;
  size = 32;
  outstanding = 0;
  committing = true;
  n = 1;
  sector = 5 ∷ replicate 29 0;
}

abbrev machine : Machine
machine = record { disk = image; dirty = update (λ a. none) 5 (some data_block); power = 2 }

-- What is said of the only entry.
only {ℓ} : (P : ℕ → Type ℓ) → P 0 → (t : ℕ) → t < 1 → P t
only P p zero h = p
only P p (suc t) h = absurd (omega arith)

one_logged-Placed : Placed one_logged
one_logged-Placed = record {
  fits = omega arith;
  before = λ t h. only (λ t. get_or one_logged.sector t 0 < 32) (omega arith) t h;
  distinct = λ s t p q. absurd (omega arith);
}

pins : (a : ℕ) → Untouched one_logged a → machine.dirty a ≡ none
pins a u = rw (==_of_ne 5 a (λ e. u 0 (omega arith) (sym e))) refl

one_logged-IsReady : IsReady one_logged machine
one_logged-IsReady = record {
  placed = one_logged-Placed;
  array = refl;
  clean = refl;
  len = refl;
  pinned = pins;
}

one_logged-Located : Located one_logged image
one_logged-Located = record {
  behind = omega arith;
  untouched = λ t h. only (λ t. 1 ≢ get_or one_logged.sector t 0) (omega arith) t h;
  located = refl;
}

-- The header has been written, so the transaction survives two more crashes, during recovery.
commit_atomic_example :
    Settled 32 (bread machine) (recovered (0 ∷ 1 ∷ []) 2 (commit one_logged machine).1)
commit_atomic_example =
    (commit_atomic one_logged machine (0 ∷ 1 ∷ []) 2 one_logged-IsReady one_logged-Located
        (omega arith)).1
      (omega arith)

-- The same transaction while an operation is still under way, and after that has logged sector 9.
abbrev open_log : Log
open_log = record one_logged { outstanding = 1; committing = false }

abbrev two_logged : Log
two_logged = record open_log { n = 2; sector = 5 ∷ 9 ∷ replicate 28 0 }

abbrev machine2 : Machine
machine2 = record machine { dirty = update machine.dirty 9 (some data_block) }

open_log-IsReady : IsReady open_log machine
open_log-IsReady = record {
  placed = record {
    fits = omega arith;
    before = λ t h. only (λ t. get_or open_log.sector t 0 < 32) (omega arith) t h;
    distinct = λ s t p q. absurd (omega arith);
  };
  array = refl;
  clean = refl;
  len = refl;
  pinned = pins;
}

log_write-IsReady_example :
    IsReady two_logged machine2
    × ((s : ℕ) → bread machine2 s ≡ update (bread machine) 9 data_block s)
unfolding log_write find_sector
log_write-IsReady_example =
    log_write-IsReady open_log two_logged machine machine2 9 data_block open_log-IsReady
      (omega arith) refl

-- A log with nothing in it, and an operation that begins.
abbrev idle : Sys
idle = record {
  log = record one_logged { n = 0; committing = false };
  machine = machine;
  credits = [];
}

abbrev busy : Sys
busy = record idle { log = record idle.log { outstanding = 1 }; credits = 10 ∷ [] }

-- The log of an image by mkfs.
abbrev mkfs_sys : Sys
mkfs_sys = record idle { log = record idle.log { size = 30 } }

mkfs_sys-Reserved : Reserved mkfs_sys
mkfs_sys-Reserved = record {
  counted = refl;
  few = omega arith;
  small = tt;
  fits = omega arith;
  alone = λ e. refl;
  array = refl;
}

reservation_overrun_example :
    (t : Sys) × Reach mkfs_sys t
    × (t.credits ≡ 0 ∷ 0 ∷ 1 ∷ [])
    × ((a : ℕ) (c : Block) → log_write t.log t.machine a c ≡ none)
reservation_overrun_example =
    reservation_overrun mkfs_sys (λ i. i + 100) data_block mkfs_sys-Reserved refl refl refl refl
      refl (λ i j e. omega arith)
