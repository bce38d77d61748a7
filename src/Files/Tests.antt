-- ===== src/Files/Tests.antt =====
-- Runs over a small table of files, and the theorems at concrete inputs.
use os.Prelude.{
  ℕ, zero, suc, ◌<◌, ◌≡◌, refl, true, false, List, [], ◌∷◌, Option, none, some, arith, ◌==◌,
  if◌then◌else◌, none≢some, get_elem?,
}
use os.Files.{
  File, fd_pipe, fd_inode, fd_none, set_ref, dup_ref, filedup, retire, close_ref, fileclose, argfd,
  find_fd, fdalloc, iput, answers, dup_into, dup_file, sys_dup, close_file, sys_close, last_close,
}
use os.Files.Counted.{Counts, with_fds}
use os.Files.Close.{Closes, sys_close-Closes}

abbrev the_pipe : File
the_pipe = record {
  type = fd_pipe;
  ref = 2;
  readable = true;
  writable = false;
  pipe = 4096;
  ip = 0;
  off = 0;
}

abbrev the_inode : File
the_inode = record {
  type = fd_inode;
  ref = 1;
  readable = true;
  writable = true;
  pipe = 0;
  ip = 7;
  off = 30;
}

abbrev no_file : File
no_file = record {
  type = fd_none;
  ref = 0;
  readable = false;
  writable = false;
  pipe = 0;
  ip = 0;
  off = 0;
}

abbrev files : List File
files = the_pipe ∷ the_inode ∷ no_file ∷ []

abbrev fds : List (Option ℕ)
fds = some 0 ∷ none ∷ some 1 ∷ none ∷ []

-- Another process holds the pipe too.
abbrev elsewhere : ℕ → ℕ
elsewhere i = if 0 == i then 1 else 0

files-Counts : Counts files (with_fds fds elsewhere)
files-Counts = record { right = right; inside = inside }
  where
    right : (i : ℕ) (f : File) → get_elem? files i ≡ some f → f.ref ≡ with_fds fds elsewhere i
    right zero f e = ground arith
    right (suc zero) f e = ground arith
    right (suc (suc zero)) f e = ground arith
    right (suc (suc (suc i))) f e = absurd (none≢some e)

    inside : (i : ℕ) → 0 < with_fds fds elsewhere i → (f : File) × (get_elem? files i ≡ some f)
    inside zero h = (the_pipe, refl)
    inside (suc zero) h = (the_inode, refl)
    inside (suc (suc i)) h = absurd (ground arith)

-- A second descriptor for the inode, and the end of the last one.
dup_run :
    sys_dup 2 files fds
    ≡ answers 1
        (the_pipe ∷ record the_inode { ref = 2 } ∷ no_file ∷ [])
        (some 0 ∷ some 1 ∷ some 1 ∷ none ∷ [])
unfolding sys_dup argfd dup_file fdalloc find_fd dup_into filedup dup_ref set_ref
dup_run = refl

close_run :
    sys_close 2 files fds
    ≡ answers
        (iput 7)
        (the_pipe ∷ record the_inode { type = fd_none; ref = 0 } ∷ no_file ∷ [])
        (some 0 ∷ none ∷ none ∷ none ∷ [])
unfolding sys_close argfd close_file fileclose close_ref last_close retire
close_run = refl

sys_close-Closes_example : Closes 2 files fds elsewhere (sys_close 2 files fds)
sys_close-Closes_example = sys_close-Closes 2 files fds elsewhere files-Counts
