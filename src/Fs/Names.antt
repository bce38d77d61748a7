-- ===== src/Fs/Names.antt =====
-- The walk along a path: namex, namei and nameiparent of fs.c. A lookup that sleeps in ilock ends there,
-- with the path and the place of the inode that it has come to, and goes on with them.
pub mod Balance
pub mod Rounds
mod Tests
use os.Prelude.{
  ℕ, zero, suc, ◌+◌, Bool, true, false, not, ◌&&◌, List, [], ◌∷◌, Option, none, some, ◌==◌,
  if◌then◌else◌, length, get_elem?, set, replicate,
}
use os.Fs.Disk.{Disk}
use os.Fs.Inode.{Inode}
use os.Fs.Path.{dirsiz, slash, skipelem, name_of}
use os.Fs.Content.{t_dir}
use os.Fs.Icache.{Cache, Lock, locked, iget, idup, ilock, iunlock, iput, iunlockput}
use os.Fs.Dir.{Lookup, panics, absent, found, dirlookup}

-- ROOTDEV and ROOTINO.
abbrev pub rootdev : ℕ
rootdev = 1

abbrev pub rootino : ℕ
rootino = 1

-- A panic, a sleep, 0, or the inode and the last name.
pub data Walk : Type 0 where
  panicked : Walk
  asleep : List ℕ → ℕ → Cache → Walk
  nowhere : Cache → Walk
  reaches : ℕ → List ℕ → Cache → Walk

abbrev pub at_end : List ℕ → Bool
at_end [] = true
at_end (c ∷ path) = false

-- iunlockput(ip); return 0;
pub leave : ℕ → Cache → Walk
leave i c = elim (iunlockput i c) [ none ↦ panicked | some c' ↦ nowhere c' ]

-- The end of one round: iunlockput(ip); ip = next;
pub go_on : (ℕ → Cache → Walk) → ℕ → Cache → Option (ℕ × List Inode) → Walk
go_on later i c none = panicked
go_on later i c (some (next, inodes)) = elim (iunlockput i (record c { inodes = inodes })) [
  | none ↦ panicked
  | some c' ↦ later next c'
]

-- The directory as dirlookup leaves it.
abbrev pub with_inode : ℕ → Inode → Disk → Cache → Cache
with_inode i dp disk c = record c { inodes = set c.inodes i dp; disk = disk }

pub follow : (ℕ → Cache → Walk) → ℕ → Cache → Lookup → Walk
follow later i c panics = panicked
follow later i c (absent dp disk) = leave i (with_inode i dp disk c)
follow later i c (found off inum dp disk) =
    let c' = with_inode i dp disk c in go_on later i c' (iget dp.dev inum c'.inodes)

-- One round with the inode locked; path and name are those that skipelem gave.
pub enter :
    (ℕ → Bool) → Bool → List ℕ → List ℕ → (ℕ → Cache → Walk) → ℕ → Cache → Option Inode → Walk
enter has parent path name later i c none = panicked
enter has parent path name later i c (some ip) =
    if not (ip.type == t_dir)
    then leave i c
    else if parent && at_end path
    then elim (iunlock i c) [ none ↦ panicked | some c' ↦ reaches i name c' ]
    else follow later i c (dirlookup has (name_of name) ip c.disk)

-- What follows the loop.
pub finish : Bool → List ℕ → ℕ → Cache → Walk
finish true name i c = elim (iput i c) [ none ↦ panicked | some c' ↦ nowhere c' ]
finish false name i c = reaches i name c

-- The loop of namex, in more rounds than the path has characters.
pub walk : (ℕ → Bool) → Bool → ℕ → List ℕ → List ℕ → ℕ → Cache → Walk
walk has parent zero path name i c = panicked
walk has parent (suc rounds) path name i c = elim (skipelem path name) [
  | none ↦ finish parent name i c
  | some (path', name') ↦ elim (ilock i c) [
    | Lock.panicked ↦ panicked
    | Lock.asleep c' ↦ asleep path i c'
    | locked c' ↦
        enter has parent path' name' (walk has parent rounds path' name') i c'
          (get_elem? c'.inodes i)
  ]
]

abbrev pub is_absolute : List ℕ → Bool
is_absolute [] = false
is_absolute (c ∷ path) = c == slash

abbrev pub start : (ℕ → Bool) → Bool → List ℕ → List ℕ → Cache → Option (ℕ × List Inode) → Walk
start has parent path name c none = panicked
start has parent path name c (some (i, inodes)) =
    walk has parent (length path + 1) path name i (record c { inodes = inodes })

-- cwd is the place of proc->cwd, and `name` what stands in the buffer.
pub namex : (ℕ → Bool) → Bool → ℕ → List ℕ → List ℕ → Cache → Walk
namex has parent cwd path name c =
    if is_absolute path
    then start has parent path name c (iget rootdev rootino c.inodes)
    else start has parent path name c (some (cwd, idup cwd c.inodes))

pub namei : (ℕ → Bool) → ℕ → List ℕ → List ℕ → Cache → Walk
namei has cwd path name c = namex has false cwd path name c

pub nameiparent : (ℕ → Bool) → ℕ → List ℕ → List ℕ → Cache → Walk
nameiparent has cwd path name c = namex has true cwd path name c
