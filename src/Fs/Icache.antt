-- ===== src/Fs/Icache.antt =====
-- The cache of inodes: iget, idup, ilock, iunlock, iput and ialloc of fs.c. An inode is its place in
-- icache.inode, and `none` and `panicked` are panics. A reference count is the bits of an int.
pub mod Unique
pub mod Put
pub mod Hold
pub mod Samples
mod Tests
use os.Prelude.{
  ℕ, zero, suc, ◌+◌, ◌-◌, ◌*◌, ◌/◌, ◌%◌, ◌^◌, Bool, true, false, not, ◌&&◌, ◌||◌, List, [], ◌∷◌,
  Option, none, some, ◌==◌, ltb, leb, if◌then◌else◌, get_elem?, modify, set, ◌>>=◌,
}
use os.Fs.Disk.{Block, Disk, put_block, fs_ninodes}
use os.Fs.Inode.{Inode, iblock, dinode_at, half, put_half, iupdate, load}
use os.Fs.Content.{itrunc}

-- The inodes, the disk, and how many threads sleep on each inode.
pub record Cache : Type 0 where
  pub inodes : List Inode
  pub disk : Disk
  pub sleepers : ℕ → ℕ

-- ref > 0, ref++ and ref--
abbrev pub is_referenced : Inode → Bool
is_referenced ip = ltb 0 ip.ref && ltb ip.ref (2 ^ 31)

abbrev pub ref_up : Inode → Inode
ref_up ip = record ip { ref = (ip.ref + 1) % 2 ^ 32 }

abbrev pub ref_down : Inode → Inode
ref_down ip = record ip { ref = (ip.ref + (2 ^ 32 - 1)) % 2 ^ 32 }

abbrev pub is_inode : ℕ → ℕ → Inode → Bool
is_inode dev inum ip = is_referenced ip && ip.dev == dev && ip.inum == inum

-- What the loop of iget comes to: the inode, or the empty slot it remembers, or neither.
pub data Search : Type 0 where
  cached vacant : ℕ → Search
  full : Search

abbrev pub remember : Option ℕ → ℕ → Inode → Option ℕ
remember (some e) i ip = some e
remember none i ip = if ip.ref == 0 then some i else none

abbrev pub or_empty : Option ℕ → Search
or_empty none = full
or_empty (some e) = vacant e

pub find_inode : ℕ → ℕ → List Inode → ℕ → Option ℕ → Search
find_inode dev inum [] i empty = or_empty empty
find_inode dev inum (ip ∷ rest) i empty =
    let later = find_inode dev inum rest (i + 1) (remember empty i ip) in
    if is_inode dev inum ip then cached i else later

abbrev pub recycle : ℕ → ℕ → Inode → Inode
recycle dev inum ip = record ip { dev = dev; inum = inum; ref = 1; busy = false; valid = false }

pub take_inode : ℕ → ℕ → List Inode → Search → Option (ℕ × List Inode)
take_inode dev inum inodes (cached i) = some (i, modify inodes i ref_up)
take_inode dev inum inodes (vacant i) = some (i, modify inodes i (recycle dev inum))
take_inode dev inum inodes full = none

pub iget : ℕ → ℕ → List Inode → Option (ℕ × List Inode)
iget dev inum inodes = take_inode dev inum inodes (find_inode dev inum inodes 0 none)

pub idup : ℕ → List Inode → List Inode
idup i inodes = modify inodes i ref_up

-- sleep(ip) and wakeup(ip)
abbrev pub sleep_on : ℕ → (ℕ → ℕ) → ℕ → ℕ
sleep_on i sleepers j = if i == j then sleepers j + 1 else sleepers j

abbrev pub wake : ℕ → (ℕ → ℕ) → ℕ → ℕ
wake i sleepers j = if i == j then 0 else sleepers j

-- A call of ilock panics, sleeps, to be made again, or has locked the inode.
pub data Lock : Type 0 where
  panicked : Lock
  asleep locked : Cache → Lock

pub read_inode : ℕ → Cache → Inode → Lock
read_inode i c ip =
    let ip' = load ip c.disk in
    if ip.valid
    then locked (record c { inodes = set c.inodes i ip })
    else if ip'.type == 0
    then panicked
    else locked (record c { inodes = set c.inodes i ip' })

pub lock_inode : ℕ → Cache → Inode → Lock
lock_inode i c ip =
    if not (is_referenced ip)
    then panicked
    else if ip.busy
    then asleep (record c { sleepers = sleep_on i c.sleepers })
    else read_inode i c (record ip { busy = true })

pub ilock : ℕ → Cache → Lock
ilock i c = elim (get_elem? c.inodes i) [ none ↦ panicked | some ip ↦ lock_inode i c ip ]

pub unlock_inode : ℕ → Cache → Inode → Option Cache
unlock_inode i c ip =
    if not ip.busy || not (is_referenced ip)
    then none
    else some (record c {
      inodes = set c.inodes i (record ip { busy = false });
      sleepers = wake i c.sleepers;
    })

pub iunlock : ℕ → Cache → Option Cache
iunlock i c = get_elem? c.inodes i >>= unlock_inode i c

-- The part of iput that frees an inode, and the inode after it.
pub free_inode : ℕ → Cache → Inode → Option Cache
free_inode i c ip =
    if ip.busy
    then none
    else (itrunc (record ip { busy = true }) c.disk >>= λ (ip1, d1).
        let ip2 = record ip1 { type = 0 } in
        some (record c {
          inodes = set c.inodes i (record ip2 { busy = false; valid = false });
          disk = iupdate ip2 d1;
          sleepers = wake i c.sleepers;
        }))

-- ip->ref--
pub unref : ℕ → Cache → Cache
unref i c = record c { inodes = modify c.inodes i ref_down }

pub put_inode : ℕ → Cache → Inode → Option Cache
put_inode i c ip =
    if ip.ref == 1 && ip.valid && ip.nlink == 0
    then (free_inode i c ip >>= λ c'. some (unref i c'))
    else some (unref i c)

pub iput : ℕ → Cache → Option Cache
iput i c = get_elem? c.inodes i >>= put_inode i c

pub iunlockput : ℕ → Cache → Option Cache
iunlockput i c = iunlock i c >>= iput i

-- memset(dip, 0, sizeof(*dip)); dip->type = type;
abbrev pub new_dinode : ℕ → ℕ → Block → Block
new_dinode at type bytes =
    put_half at type (λ j. if leb at j && ltb j (at + 64) then 0 else bytes j)

-- The loop of ialloc from inum on, with so many rounds left: the inode, and the disk.
pub find_dinode : ℕ → ℕ → ℕ → Disk → Option (ℕ × Disk)
find_dinode zero inum type disk = none
find_dinode (suc left) inum type disk =
    let later = find_dinode left (inum + 1) type disk in
    let bytes = disk (iblock inum) in
    if half (dinode_at inum) bytes == 0
    then some (inum, put_block (iblock inum) (new_dinode (dinode_at inum) type bytes) disk)
    else later

pub ialloc : ℕ → ℕ → Cache → Option (ℕ × Cache)
ialloc dev type c = find_dinode (fs_ninodes c.disk - 1) 1 type c.disk >>= λ (inum, disk).
    iget dev inum c.inodes >>= λ (i, inodes). some (i, record c { inodes = inodes; disk = disk })
