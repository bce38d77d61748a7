-- ===== src/Fs/Dir/Link.antt =====
-- dirlink, and dirlookup after it.
use os.Prelude.{ℕ, ◌*◌, ◌%◌, ◌≤◌, ◌<◌, ◌≡◌, ◌≢◌, Bool, List, ◌⊎◌}
use os.Fs.Disk.{bsize, Disk}
use os.Fs.Inode.{Inode, maxfile}
use os.Fs.Content.{Outcome, panicked, failed, device, answers}
use os.Fs.Content.Holes.{Full, Wants}
use os.Fs.Dir.{sizeof_dirent, dirent_inum, found, dirlookup}
use os.Fs.Dir.Search.{Solid, dirent}

module _ (n size : ℕ) (has : ℕ → Bool) (name : List ℕ) (inum : ℕ) (dp : Inode) (disk : Disk) where
  -- All entries before this offset are in use.
  abbrev pub AllUsed : ℕ → Type 0
  AllUsed off = (p : ℕ) → p < off → p % sizeof_dirent ≡ 0 → dirent_inum (dirent dp disk p) ≢ 0

  -- The directory with the new entry, the first that was free: a lookup finds it, and all other entries are as they were. An
  -- entry that it takes the place of was not in use.
  pub record Linked (dp' : Inode) (disk' : Disk) : Type 0 where
    pub solid : Solid n size dp' disk'
    pub off : ℕ
    pub free : off < dp.size → dirent_inum (dirent dp disk off) ≡ 0
    pub first : AllUsed off
    pub finds : dirlookup has name dp' disk' ≡ found off (inum % 65536) dp' disk'
    pub others :
        (p : ℕ)
        → p < dp.size
        → p % sizeof_dirent ≡ 0
        → off ≢ p
        → dirent dp' disk' p ≡ dirent dp disk p

  pub Links : Outcome ℕ → Type 0
  Links panicked =
      ((off : ℕ) × (off ≤ dp.size)
        × (off % sizeof_dirent ≡ 0)
        × Full n size (Wants off sizeof_dirent) dp disk)
      ⊎ ((dp.size ≡ maxfile * bsize) × AllUsed dp.size)
  Links failed = (o : ℕ) × (i : ℕ) × (dirlookup has name dp disk ≡ found o i dp disk)
  Links (device d) = ⊥
  Links (answers count dp' disk') = Linked dp' disk'
