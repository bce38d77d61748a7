-- ===== src/Bio/Tests.antt =====
-- Runs over a cache of two buffers, and the theorems at concrete inputs.
use os.Prelude.{◌≡◌, refl, true, false, List, [], ◌∷◌, some, arith, set}
use os.Bio.{
  Buf, Disk, unbound, binit, find_cached, or_here, find_spare, rebind, got, take_spare, bget_at,
  bget, iderw, fill, unlink, put_first, brelse,
}
use os.Bio.Unique.{here, then_move, gets, reads, releases, Unique, cached_once}

abbrev disk : Disk
disk = record { size = 1000; sectors = λ a. a ∷ [] }

-- The buffer of slot 0 is used last at the start, so that it is recycled first.
abbrev taken : List Buf
taken = unbound [] 1 ∷ rebind 1 5 (unbound [] 0) ∷ []

abbrev loaded : Buf
loaded = record (rebind 1 5 (unbound [] 0)) { valid = true; bytes = 5 ∷ [] }

abbrev let_go : List Buf
let_go = record loaded { busy = false } ∷ unbound [] 1 ∷ []

get_run : bget 1 5 (binit [] 2) ≡ got 1 taken
unfolding bget find_cached bget_at find_spare or_here take_spare binit rebind
get_run = refl

read_run : fill (rebind 1 5 (unbound [] 0)) disk ≡ some (loaded, disk)
unfolding fill iderw rebind
read_run = refl

release_run : brelse (set taken 1 loaded) 1 ≡ some let_go
unfolding brelse unlink put_first rebind
release_run = refl

cached_once_example : Unique let_go
cached_once_example = cached_once [] 2 let_go (
    then_move (set taken 1 loaded) let_go
      (then_move taken (set taken 1 loaded)
        (then_move (binit [] 2) taken here (gets 1 5 1 taken (λ e. omega arith) get_run))
        (reads 1 (rebind 1 5 (unbound [] 0)) loaded disk disk refl read_run))
      (releases 1 let_go release_run))
