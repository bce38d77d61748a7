-- ===== src/Fs/Dir.antt =====
-- Directories: namecmp, dirlookup and dirlink of fs.c, on a locked directory. A name is the list of its
-- characters before the NUL. What is found is told by its offset and inode number, which iget is then
-- asked for; the iput of an inode that dirlink finds is left to the caller.
pub mod Search
pub mod Keep
pub mod Entry
pub mod Link
mod Tests
use os.Prelude.{
  ℕ, zero, suc, ◌+◌, ◌-◌, ◌*◌, ◌/◌, ◌%◌, Bool, true, false, List, [], ◌∷◌, Option, none, some, ◌==◌,
  ltb, if◌then◌else◌, length, drop, get_or,
}
use os.Fs.Disk.{Disk}
use os.Fs.Inode.{Inode}
use os.Fs.Path.{dirsiz}
use os.Fs.Content.{t_dir, Outcome, panicked, failed, device, answers, readi, writei}

-- sizeof(de) of struct dirent.
abbrev pub sizeof_dirent : ℕ
sizeof_dirent = 16

abbrev pub dirent_inum : List ℕ → ℕ
dirent_inum de = get_or de 0 0 + 256 * get_or de 1 0

abbrev pub dirent_name : List ℕ → List ℕ
dirent_name de = drop 2 de

-- strncmp(s, t, n) == 0, where a string is followed by NULs.
pub same_name : ℕ → List ℕ → List ℕ → Bool
same_name zero s t = true
same_name (suc n) s t =
    let rest = same_name n (drop 1 s) (drop 1 t) in
    if get_or s 0 0 == get_or t 0 0 then if get_or s 0 0 == 0 then true else rest else false

pub namecmp : List ℕ → List ℕ → Bool
namecmp s t = same_name dirsiz s t

-- readi(dp, (char*)&de, off, sizeof(de)); `none` is a panic.
pub whole_dirent : Outcome (List ℕ) → Option (List ℕ × Inode × Disk)
whole_dirent (answers de dp disk) = if length de == sizeof_dirent then some (de, dp, disk) else none
whole_dirent o = none

abbrev pub read_dirent : (ℕ → Bool) → ℕ → Inode → Disk → Option (List ℕ × Inode × Disk)
read_dirent has off dp disk = whole_dirent (readi has off sizeof_dirent dp disk)

pub data Lookup : Type 0 where
  panics : Lookup
  absent : Inode → Disk → Lookup
  found : ℕ → ℕ → Inode → Disk → Lookup

-- One entry at off, and the rest of the loop of dirlookup.
pub look_at : ℕ → List ℕ → (Inode → Disk → Lookup) → Option (List ℕ × Inode × Disk) → Lookup
look_at off name later none = panics
look_at off name later (some (de, dp, disk)) =
    if dirent_inum de == 0
    then later dp disk
    else if namecmp name (dirent_name de)
    then found off (dirent_inum de) dp disk
    else later dp disk

pub look_from : (ℕ → Bool) → ℕ → ℕ → List ℕ → Inode → Disk → Lookup
look_from has zero off name dp disk = absent dp disk
look_from has (suc rounds) off name dp disk =
    if ltb off dp.size
    then look_at off name (look_from has rounds (off + sizeof_dirent) name)
        (read_dirent has off dp disk)
    else absent dp disk

pub dirlookup : (ℕ → Bool) → List ℕ → Inode → Disk → Lookup
dirlookup has name dp disk =
    if dp.type == t_dir then look_from has (dp.size / sizeof_dirent + 1) 0 name dp disk else panics

-- The loop of dirlink that looks for an empty entry.
pub free_at : ℕ → (Inode → Disk → Outcome ℕ) → Option (List ℕ × Inode × Disk) → Outcome ℕ
free_at off later none = panicked
free_at off later (some (de, dp, disk)) =
    if dirent_inum de == 0 then answers off dp disk else later dp disk

pub find_free : (ℕ → Bool) → ℕ → ℕ → Inode → Disk → Outcome ℕ
find_free has zero off dp disk = answers off dp disk
find_free has (suc rounds) off dp disk =
    if ltb off dp.size
    then free_at off (find_free has rounds (off + sizeof_dirent)) (read_dirent has off dp disk)
    else answers off dp disk

-- strncpy(de.name, name, DIRSIZ), and the entry; its inode number is an ushort.
pub copy_name : ℕ → List ℕ → List ℕ
copy_name zero s = []
copy_name (suc n) [] = 0 ∷ copy_name n []
copy_name (suc n) (c ∷ s) = c ∷ copy_name n s

abbrev pub new_dirent : List ℕ → ℕ → List ℕ
new_dirent name inum = inum % 256 ∷ inum / 256 % 256 ∷ copy_name dirsiz name

-- The entry is to be written whole.
pub written_whole : Outcome ℕ → Outcome ℕ
written_whole (answers count dp disk) =
    if count == sizeof_dirent then answers 0 dp disk else panicked
written_whole o = panicked

pub link_at : (ℕ → Bool) → List ℕ → ℕ → Outcome ℕ → Outcome ℕ
link_at has name inum (answers off dp disk) =
    written_whole (writei has (new_dirent name inum) off dp disk)
link_at has name inum o = panicked

pub link_absent : (ℕ → Bool) → List ℕ → ℕ → Lookup → Outcome ℕ
link_absent has name inum panics = panicked
link_absent has name inum (found off i dp disk) = failed
link_absent has name inum (absent dp disk) =
    link_at has name inum (find_free has (dp.size / sizeof_dirent + 1) 0 dp disk)

pub dirlink : (ℕ → Bool) → List ℕ → ℕ → Inode → Disk → Outcome ℕ
dirlink has name inum dp disk = link_absent has name inum (dirlookup has name dp disk)
