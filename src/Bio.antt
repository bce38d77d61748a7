-- ===== src/Bio.antt =====
-- bio.c, the buffer cache, and memide.c, the disk that it is read from. The cache is the list of
-- buffers from bcache.head.next, the one used last, to bcache.head.prev; a buffer is named by its
-- place in that list, and keeps its identity in `slot`, its index in bcache.buf.
pub mod Choice
pub mod Unique
pub mod Release
mod Tests
use os.Prelude.{
  ℕ, zero, suc, ◌+◌, ◌-◌, ◌^◌, Bool, true, false, not, ◌&&◌, ◌||◌, List, [], ◌∷◌, Option, none,
  some, ◌==◌, ltb, leb, if◌then◌else◌, get_elem?, modify,
}

-- struct buf, with the three bits of `flags`.
pub record Buf : Type 0 where
  pub slot : ℕ
  pub busy : Bool
  pub valid : Bool
  pub dirty : Bool
  pub dev : ℕ
  pub sector : ℕ
  pub bytes : List ℕ

-- dev = -1, as a uint.
abbrev pub no_dev : ℕ
no_dev = 2 ^ 32 - 1

-- A buffer after the loop of binit, whose other fields the loader left zero.
abbrev pub unbound : List ℕ → ℕ → Buf
unbound zeroes slot = record {
  slot = slot;
  busy = false;
  valid = false;
  dirty = false;
  dev = no_dev;
  sector = 0;
  bytes = zeroes;
}

-- binit puts each buffer in front of those before it.
pub binit : List ℕ → ℕ → List Buf
binit zeroes zero = []
binit zeroes (suc n) = unbound zeroes n ∷ binit zeroes n

abbrev pub is_for : ℕ → ℕ → Buf → Bool
is_for dev sector b = b.dev == dev && b.sector == sector

-- Neither busy nor dirty.
abbrev pub is_spare : Buf → Bool
is_spare b = not b.busy && not b.dirty

-- The first loop of bget, from place i on.
pub find_cached : ℕ → ℕ → List Buf → ℕ → Option ℕ
find_cached dev sector [] i = none
find_cached dev sector (b ∷ bs) i =
    let rest = find_cached dev sector bs (i + 1) in if is_for dev sector b then some i else rest

pub or_here : Bool → ℕ → Option ℕ → Option ℕ
or_here spare i (some j) = some j
or_here spare i none = if spare then some i else none

-- The second loop of bget, which runs from the end: the last spare buffer, counted from place i.
pub find_spare : List Buf → ℕ → Option ℕ
find_spare [] i = none
find_spare (b ∷ bs) i = or_here (is_spare b) i (find_spare bs (i + 1))

pub set_busy : Buf → Buf
set_busy b = record b { busy = true }

-- b->dev = dev; b->sector = sector; b->flags = B_BUSY
pub rebind : ℕ → ℕ → Buf → Buf
rebind dev sector b = record b {
  dev = dev;
  sector = sector;
  busy = true;
  valid = false;
  dirty = false;
}

-- `sleeps` names the buffer to wait for, after which bget starts again.
pub data Get : Type 0 where
  panicked : Get
  sleeps : ℕ → Get
  got : ℕ → List Buf → Get

pub take_cached : List Buf → ℕ → Option Buf → Get
take_cached bs i none = panicked
take_cached bs i (some b) = if b.busy then sleeps i else got i (modify bs i set_busy)

pub take_spare : ℕ → ℕ → List Buf → Option ℕ → Get
take_spare dev sector bs none = panicked
take_spare dev sector bs (some i) = got i (modify bs i (rebind dev sector))

pub bget_at : ℕ → ℕ → List Buf → Option ℕ → Get
bget_at dev sector bs (some i) = take_cached bs i (get_elem? bs i)
bget_at dev sector bs none = take_spare dev sector bs (find_spare bs 0)

pub bget : ℕ → ℕ → List Buf → Get
bget dev sector bs = bget_at dev sector bs (find_cached dev sector bs 0)

-- The memory disk: its size in sectors and their bytes.
pub record Disk : Type 0 where
  pub size : ℕ
  pub sectors : ℕ → List ℕ

pub write_sector : ℕ → List ℕ → Disk → Disk
write_sector a bs disk = record disk { sectors = λ i. if a == i then bs else disk.sectors i }

-- iderw of memide.c; `none` is a panic.
pub iderw : Buf → Disk → Option (Buf × Disk)
iderw b disk =
    if not b.busy
    then none
    else if b.valid && not b.dirty
    then none
    else if not (b.dev == 1)
    then none
    else if leb disk.size b.sector
    then none
    else if b.dirty
    then some (record b { dirty = false; valid = true }, write_sector b.sector b.bytes disk)
    else some (record b { bytes = disk.sectors b.sector; valid = true }, disk)

-- bread's use of a buffer that bget returned.
pub fill : Buf → Disk → Option (Buf × Disk)
fill b disk = if b.valid then some (b, disk) else iderw b disk

-- bwrite
pub bwrite : Buf → Disk → Option (Buf × Disk)
bwrite b disk = if not b.busy then none else iderw (record b { dirty = true }) disk

-- Unlink the buffer at a place: the buffer, and the list without it.
pub unlink : List Buf → ℕ → Option (Buf × List Buf)
unlink [] i = none
unlink (b ∷ bs) zero = some (b, bs)
unlink (b ∷ bs) (suc i) = elim (unlink bs i) [ none ↦ none | some (x, rest) ↦ some (x, b ∷ rest) ]

pub put_first : Option (Buf × List Buf) → Option (List Buf)
put_first none = none
put_first (some (b, rest)) = if not b.busy then none else some (record b { busy = false } ∷ rest)

-- brelse; `none` is a panic.
pub brelse : List Buf → ℕ → Option (List Buf)
brelse bs i = put_first (unlink bs i)
