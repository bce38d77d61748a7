-- ===== src/Files.antt =====
-- file.c and the descriptors of sysfile.c: the table of open files, ftable.file, with its reference
-- counts, and the table `proc->ofile` of one process. A file is its place in the table. What is done
-- to the pipe or inode of a file that is closed for good is named in the answer. Reference counts are
-- ints in the source; at most NPROC * NOFILE descriptors exist.
pub mod Counted
pub mod Alloc
pub mod Dup
pub mod Close
pub mod Io
mod Tests
use os.Prelude.{
  ℕ, zero, suc, ◌+◌, ◌-◌, Bool, true, false, List, [], ◌∷◌, Option, none, some, ◌==◌, ltb, leb,
  if◌then◌else◌, get_elem?, modify, set, ◌>>=◌,
}

abbrev pub nofile : ℕ
nofile = 16

pub data FileType : Type 0 where
  fd_none fd_pipe fd_inode : FileType

-- struct file
pub record File : Type 0 where
  pub type : FileType
  pub ref : ℕ
  pub readable : Bool
  pub writable : Bool
  pub pipe : ℕ
  pub ip : ℕ
  pub off : ℕ

pub set_ref : ℕ → File → File
set_ref n f = record f { ref = n }

-- The search of filealloc from place i on: the first file that is not in use.
pub find_file : List File → ℕ → Option ℕ
find_file [] i = none
find_file (f ∷ fs) i = let later = find_file fs (i + 1) in if f.ref == 0 then some i else later

pub take_file : List File → Option ℕ → Option ℕ × List File
take_file table none = (none, table)
take_file table (some i) = (some i, modify table i (set_ref 1))

-- The file, `none` for 0, and the table.
pub filealloc : List File → Option ℕ × List File
filealloc table = take_file table (find_file table 0)

pub dup_ref : ℕ → List File → File → Option (List File)
dup_ref i table f = if ltb f.ref 1 then none else some (modify table i (set_ref (f.ref + 1)))

-- `none` is a panic.
pub filedup : ℕ → List File → Option (List File)
filedup i table = get_elem? table i >>= dup_ref i table

-- What fileclose does after it has let go of the table.
pub data Closed : Type 0 where
  kept nothing : Closed
  pipeclose : ℕ → Bool → Closed
  iput : ℕ → Closed

pub last_close : File → Closed
last_close f = elim f.type [
  | fd_none ↦ nothing
  | fd_pipe ↦ Closed.pipeclose f.pipe f.writable
  | fd_inode ↦ iput f.ip
]

-- f->ref = 0; f->type = FD_NONE
pub retire : File → File
retire f = record f { ref = 0; type = fd_none }

pub close_ref : ℕ → List File → File → Option (Closed × List File)
close_ref i table f =
    if ltb f.ref 1
    then none
    else if ltb 0 (f.ref - 1)
    then some (kept, modify table i (set_ref (f.ref - 1)))
    else some (last_close f, modify table i retire)

-- `none` is a panic.
pub fileclose : ℕ → List File → Option (Closed × List File)
fileclose i table = get_elem? table i >>= close_ref i table

-- The file of a descriptor, given as the bits of an int, so that a negative one is too large.
pub argfd : ℕ → List (Option ℕ) → Option ℕ
argfd fd ofile = if leb nofile fd then none else (get_elem? ofile fd >>= λ f. f)

-- The search of fdalloc from descriptor fd on.
pub find_fd : List (Option ℕ) → ℕ → Option ℕ
find_fd [] fd = none
find_fd (none ∷ fs) fd = some fd
find_fd (some f ∷ fs) fd = find_fd fs (fd + 1)

pub fdalloc : ℕ → List (Option ℕ) → Option (ℕ × List (Option ℕ))
fdalloc f ofile = find_fd ofile 0 >>= λ fd. some (fd, set ofile fd (some f))

-- A panic, -1, or what the call answers with the two tables after it.
pub data Outcome (A : Type 0) : Type 0 where
  panicked failed : Outcome A
  answers : A → List File → List (Option ℕ) → Outcome A

pub dup_into : ℕ → List File → Option (ℕ × List (Option ℕ)) → Outcome ℕ
dup_into f table none = failed
dup_into f table (some (fd, ofile)) = elim (filedup f table) [
  | none ↦ panicked
  | some table' ↦ answers fd table' ofile
]

pub dup_file : List File → List (Option ℕ) → Option ℕ → Outcome ℕ
dup_file table ofile none = failed
dup_file table ofile (some f) = dup_into f table (fdalloc f ofile)

pub sys_dup : ℕ → List File → List (Option ℕ) → Outcome ℕ
sys_dup fd table ofile = dup_file table ofile (argfd fd ofile)

pub close_file : ℕ → List File → List (Option ℕ) → Option ℕ → Outcome Closed
close_file fd table ofile none = failed
close_file fd table ofile (some f) = elim (fileclose f table) [
  | none ↦ panicked
  | some (closed, table') ↦ answers closed table' (set ofile fd none)
]

pub sys_close : ℕ → List File → List (Option ℕ) → Outcome Closed
sys_close fd table ofile = close_file fd table ofile (argfd fd ofile)
