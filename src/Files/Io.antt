-- ===== src/Files/Io.antt =====
-- filestat, fileread and filewrite of file.c, for an open file and its inode. The inode is locked for
-- each readi and writei, and so are the pieces of a write: here no other thread comes between them.
-- A count is the bits of an int.
pub mod Writes
mod Tests
use os.Prelude.{
  ℕ, zero, suc, ◌+◌, ◌-◌, ◌*◌, ◌/◌, leb, ◌%◌, ◌^◌, min, Bool, true, false, not, List, [], ◌∷◌,
  Option, none, some, ◌==◌, ltb, if◌then◌else◌, length, take, drop,
}
use os.Fs.Disk.{Disk}
use os.Fs.Inode.{Inode}
use os.Fs.Content.{Outcome, Stat, stati, readi, writei}
use os.Log.{logsize}
use os.Files.{File, fd_none, fd_pipe, fd_inode}

-- A panic, -1, the call on a pipe or device that is made, an answer, or -1 after a part was written.
pub data Io (A : Type 0) : Type 0 where
  panicked failed : Io A
  to_pipe to_device : ℕ → Io A
  answers : A → File → Inode → Disk → Io A
  stopped : File → Inode → Disk → Io A

pub filestat : File → Inode → Option Stat
filestat f ip = elim f.type [ fd_inode ↦ some (stati ip) | _ ↦ none ]

-- f->off += r;
abbrev pub advance : ℕ → File → File
advance r f = record f { off = (f.off + r) % 2 ^ 32 }

-- What fileread makes of the answer of readi.
pub read_done : File → Outcome (List ℕ) → Io (List ℕ)
read_done f Outcome.panicked = panicked
read_done f Outcome.failed = failed
read_done f (Outcome.device d) = to_device d
read_done f (Outcome.answers bytes ip disk) = answers bytes (advance (length bytes) f) ip disk

pub fileread : (ℕ → Bool) → ℕ → File → Inode → Disk → Io (List ℕ)
fileread has n f ip disk = if not f.readable then failed else elim f.type [
  | fd_none ↦ panicked
  | fd_pipe ↦ to_pipe f.pipe
  | fd_inode ↦ read_done f (readi has f.off n ip disk)
]

-- max, which is 13 blocks.
abbrev pub max_piece : ℕ
max_piece = (logsize - 1 - 1 - 2) / 2 * 512

-- One piece of n1 bytes was written, or not, and `later` writes the others.
pub piece_done : ℕ → File → (File → Inode → Disk → Io ℕ) → Inode → Disk → Outcome ℕ → Io ℕ
piece_done n1 f later ip disk Outcome.panicked = panicked
piece_done n1 f later ip disk Outcome.failed = stopped f ip disk
piece_done n1 f later ip disk (Outcome.device d) = to_device d
piece_done n1 f later ip disk (Outcome.answers r ip' disk') =
    if r == n1 then later (advance r f) ip' disk' else panicked

-- The loop of filewrite on the bytes that are left, for at most so many rounds.
pub write_pieces : (ℕ → Bool) → ℕ → List ℕ → File → Inode → Disk → Io ℕ
write_pieces has zero src f ip disk = answers 0 f ip disk
write_pieces has (suc rounds) [] f ip disk = answers 0 f ip disk
write_pieces has (suc rounds) (c ∷ src) f ip disk =
    let n1 = min max_piece (suc (length src)) in
    piece_done n1 f (write_pieces has rounds (drop n1 (c ∷ src))) ip disk
      (writei has (take n1 (c ∷ src)) f.off ip disk)

-- i == n ? n : -1
pub count_written : ℕ → Io ℕ → Io ℕ
count_written n (answers i f ip disk) = answers n f ip disk
count_written n o = o

-- src is the n bytes at addr.
pub filewrite : (ℕ → Bool) → ℕ → List ℕ → File → Inode → Disk → Io ℕ
filewrite has n src f ip disk = if not f.writable then failed else elim f.type [
  | fd_none ↦ panicked
  | fd_pipe ↦ to_pipe f.pipe
  | fd_inode ↦ if leb (2 ^ 31) n then failed else count_written n (write_pieces has n src f ip disk)
]
