-- ===== src/Fs/Content.antt =====
-- The content of an inode: bmap, itrunc, readi and writei of fs.c. `none` and `panicked` are panics.
-- devsw is told by the device numbers that have a function there.
pub mod Blocks
pub mod Trunc
pub mod Keep
pub mod Holes
pub mod Steps
pub mod Mapping
pub mod Store
pub mod Read
pub mod Write
pub mod Refine
pub mod Round
mod Tests
use os.Prelude.{
  ℕ, zero, suc, ◌+◌, ◌-◌, ◌*◌, ◌/◌, ◌%◌, ◌^◌, min, Bool, true, false, not, ◌&&◌, ◌||◌, List, [],
  ◌∷◌, ◌++◌, Option, none, some, ◌==◌, ltb, leb, if◌then◌else◌, length, take, drop, get_or, ◌>>=◌,
}
use os.Fs.Disk.{bsize, Block, Disk, put_block, word, put_word}
use os.Fs.Bitmap.{balloc, bfree}
use os.Fs.Inode.{Inode, ndirect, nindirect, maxfile, iupdate}

-- T_DIR, T_DEV and NDEV.
abbrev pub t_dir : ℕ
t_dir = 1

abbrev pub t_dev : ℕ
t_dev = 3

abbrev pub ndev : ℕ
ndev = 10

abbrev pub set_addr : ℕ → ℕ → Inode → Inode
set_addr k b ip = record ip { addrs = λ i. if k == i then b else ip.addrs i }

-- ip->addrs[k], or a block allocated for it.
pub slot : ℕ → Inode → Disk → Option (ℕ × Inode × Disk)
slot k ip disk =
    if ip.addrs k == 0
    then (balloc disk >>= λ (b, disk'). some (b, set_addr k b ip, disk'))
    else some (ip.addrs k, ip, disk)

-- a[bn] of the indirect block at addr, or a block allocated for it.
pub entry : ℕ → ℕ → Inode → Disk → Option (ℕ × Inode × Disk)
entry bn addr ip disk =
    if word (4 * bn) (disk addr) == 0
    then (balloc disk >>= λ (b, disk').
        some (b, ip, put_block addr (put_word (4 * bn) b (disk' addr)) disk'))
    else some (word (4 * bn) (disk addr), ip, disk)

pub bmap : ℕ → Inode → Disk → Option (ℕ × Inode × Disk)
bmap bn ip disk =
    if ltb bn ndirect
    then slot bn ip disk
    else if ltb (bn - ndirect) nindirect
    then (slot ndirect ip disk >>= λ (addr, ip', disk'). entry (bn - ndirect) addr ip' disk')
    else none

-- What readi and writei come to: the call of a device, -1, or what they copied.
pub data Outcome (A : Type 0) : Type 0 where
  panicked failed : Outcome A
  device : ℕ → Outcome A
  answers : A → Inode → Disk → Outcome A

abbrev pub to_device : (ℕ → Bool) → Inode → Outcome (List ℕ)
to_device has ip = if leb ndev ip.major || not (has ip.major) then failed else device ip.major

-- m bytes of a block from place i on.
pub bytes_at : ℕ → ℕ → Block → List ℕ
bytes_at zero i bytes = []
bytes_at (suc m) i bytes = bytes i ∷ bytes_at m (i + 1) bytes

pub prepend : List ℕ → Outcome (List ℕ) → Outcome (List ℕ)
prepend piece (answers rest ip disk) = answers (piece ++ rest) ip disk
prepend piece o = o

-- The loop of readi, with `left` bytes to go and at most so many rounds.
pub read_loop : ℕ → ℕ → ℕ → Inode → Disk → Outcome (List ℕ)
read_loop zero left off ip disk = answers [] ip disk
read_loop (suc rounds) zero off ip disk = answers [] ip disk
read_loop (suc rounds) (suc left) off ip disk = elim (bmap (off / bsize) ip disk) [
  | none ↦ panicked
  | some (addr, ip', disk') ↦
      let m = min (suc left) (bsize - off % bsize) in
      prepend (bytes_at m (off % bsize) (disk' addr))
        (read_loop rounds (suc left - m) (off + m) ip' disk')
]

-- What is copied to dst; readi returns its length.
pub readi : (ℕ → Bool) → ℕ → ℕ → Inode → Disk → Outcome (List ℕ)
readi has off n ip disk =
    if ip.type == t_dev
    then to_device has ip
    else if ltb ip.size off || ltb ((off + n) % 2 ^ 32) off
    then failed
    else if ltb ip.size (off + n)
    then read_loop (ip.size - off) (ip.size - off) off ip disk
    else read_loop n n off ip disk

-- A block after m bytes of src were moved to place i.
abbrev pub overlay : ℕ → ℕ → List ℕ → Block → Block
overlay i m src bytes j = if leb i j && ltb j (i + m) then get_or src (j - i) 0 else bytes j

-- The loop of writei, with the bytes that are left and at most so many rounds; it answers with off.
pub write_loop : ℕ → List ℕ → ℕ → Inode → Disk → Outcome ℕ
write_loop zero src off ip disk = answers off ip disk
write_loop (suc rounds) [] off ip disk = answers off ip disk
write_loop (suc rounds) (c ∷ src) off ip disk = elim (bmap (off / bsize) ip disk) [
  | none ↦ panicked
  | some (addr, ip', disk') ↦
      let m = min (suc (length src)) (bsize - off % bsize) in
      write_loop rounds (drop m (c ∷ src)) (off + m) ip'
        (put_block addr (overlay (off % bsize) m (c ∷ src) (disk' addr)) disk')
]

-- The end of writei.
pub grow : ℕ → Outcome ℕ → Outcome ℕ
grow n (answers off ip disk) =
    if ltb 0 n && ltb ip.size off
    then (let ip' = record ip { size = off } in answers n ip' (iupdate ip' disk))
    else answers n ip disk
grow n o = o

abbrev pub device_write : (ℕ → Bool) → Inode → Outcome ℕ
device_write has ip = if leb ndev ip.major || not (has ip.major) then failed else device ip.major

-- The bytes to write are those at src, n of them.
pub writei : (ℕ → Bool) → List ℕ → ℕ → Inode → Disk → Outcome ℕ
writei has src off ip disk =
    let n = length src in
    if ip.type == t_dev
    then device_write has ip
    else if ltb ip.size off || ltb ((off + n) % 2 ^ 32) off
    then failed
    else if ltb (maxfile * bsize) ((off + n) % 2 ^ 32)
    then failed
    else grow n (write_loop n src off ip disk)

-- The first loop of itrunc, with so many rounds left.
pub free_direct : ℕ → ℕ → Inode → Disk → Option (Inode × Disk)
free_direct zero i ip disk = some (ip, disk)
free_direct (suc left) i ip disk =
    let skipped = free_direct left (i + 1) ip disk in
    let freed =
      bfree (ip.addrs i) disk >>= λ disk'. free_direct left (i + 1) (set_addr i 0 ip) disk' in
    if ip.addrs i == 0 then skipped else freed

-- The second loop, over the words of the block at addr.
pub free_entries : ℕ → ℕ → ℕ → Disk → Option Disk
free_entries zero j addr disk = some disk
free_entries (suc left) j addr disk =
    let a = word (4 * j) (disk addr) in
    let skipped = free_entries left (j + 1) addr disk in
    let freed = bfree a disk >>= λ disk'. free_entries left (j + 1) addr disk' in
    if a == 0 then skipped else freed

pub free_indirect : Inode → Disk → Option (Inode × Disk)
free_indirect ip disk =
    let addr = ip.addrs ndirect in
    if addr == 0
    then some (ip, disk)
    else (free_entries nindirect 0 addr disk >>= λ d1.
        bfree addr d1 >>= λ d2. some (set_addr ndirect 0 ip, d2))

pub itrunc : Inode → Disk → Option (Inode × Disk)
itrunc ip disk = free_direct ndirect 0 ip disk >>= λ (ip1, d1).
    free_indirect ip1 d1 >>= λ (ip2, d2).
    let ip3 = record ip2 { size = 0 } in some (ip3, iupdate ip3 d2)

-- struct stat, as stati fills it.
pub record Stat : Type 0 where
  pub dev : ℕ
  pub ino : ℕ
  pub type : ℕ
  pub nlink : ℕ
  pub size : ℕ

pub stati : Inode → Stat
stati ip = record { dev = ip.dev; ino = ip.inum; type = ip.type; nlink = ip.nlink; size = ip.size }
