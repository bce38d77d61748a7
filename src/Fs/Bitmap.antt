-- ===== src/Fs/Bitmap.antt =====
-- The bitmap of blocks in use: balloc and bfree of fs.c. `none` is a panic.
pub mod Bits
pub mod Marks
pub mod Undo
mod Tests
use os.Prelude.{
  ℕ, zero, suc, ◌+◌, ◌*◌, ◌/◌, ◌%◌, Bool, Option, none, some, ◌==◌, ltb, if◌then◌else◌,
}
use os.Fs.Disk.{Block, Disk, put_block, put_byte, fs_size, fs_ninodes, bzero}

-- BPB, IPB and BBLOCK.
abbrev pub bpb : ℕ
bpb = 4096

abbrev pub ipb : ℕ
ipb = 8

abbrev pub bblock : ℕ → ℕ → ℕ
bblock b ninodes = b / bpb + ninodes / ipb + 3

-- byte & m, byte | m and byte & ~m for m = 1 << k; the first as 0 or 1.
unfoldable pub bit : ℕ → ℕ → ℕ
bit byte zero = byte % 2
bit byte (suc k) = bit (byte / 2) k

pub set_bit : ℕ → ℕ → ℕ
set_bit byte zero = byte / 2 * 2 + 1
set_bit byte (suc k) = set_bit (byte / 2) k * 2 + byte % 2

unfoldable pub clear_bit : ℕ → ℕ → ℕ
clear_bit byte zero = byte / 2 * 2
clear_bit byte (suc k) = clear_bit (byte / 2) k * 2 + byte % 2

-- Bit bi of a block of the bitmap.
abbrev pub marked : Block → ℕ → ℕ
marked bytes bi = bit (bytes (bi / 8)) (bi % 8)

abbrev pub mark : ℕ → Block → Block
mark bi bytes = put_byte (bi / 8) (set_bit (bytes (bi / 8)) (bi % 8)) bytes

abbrev pub unmark : ℕ → Block → Block
unmark bi bytes = put_byte (bi / 8) (clear_bit (bytes (bi / 8)) (bi % 8)) bytes

-- The inner loop of balloc from bi on, with so many rounds left: the first bit that is 0.
unfoldable pub find_bit : ℕ → ℕ → ℕ → ℕ → Block → Option ℕ
find_bit zero b bi size bytes = none
find_bit (suc left) b bi size bytes =
    let later = find_bit left b (bi + 1) size bytes in
    if ltb (b + bi) size then if marked bytes bi == 0 then some bi else later else none

-- What balloc does with the bit that it found, or else does next.
unfoldable pub take_block : ℕ → ℕ → Disk → Option (ℕ × Disk) → Option ℕ → Option (ℕ × Disk)
take_block b ninodes disk next none = next
take_block b ninodes disk next (some bi) =
    let bb = bblock b ninodes in
    some (b + bi, bzero (b + bi) (put_block bb (mark bi (disk bb)) disk))

-- The outer loop, with so many rounds left.
unfoldable pub balloc_from : ℕ → ℕ → ℕ → ℕ → Disk → Option (ℕ × Disk)
balloc_from zero b size ninodes disk = none
balloc_from (suc rounds) b size ninodes disk =
    let next = balloc_from rounds (b + bpb) size ninodes disk in
    if ltb b size
    then take_block b ninodes disk next (find_bit bpb b 0 size (disk (bblock b ninodes)))
    else none

-- The block, zeroed, and the disk.
unfoldable pub balloc : Disk → Option (ℕ × Disk)
balloc disk = balloc_from (fs_size disk / bpb + 1) 0 (fs_size disk) (fs_ninodes disk) disk

unfoldable pub bfree : ℕ → Disk → Option Disk
bfree b disk =
    let bb = bblock b (fs_ninodes disk) in
    if marked (disk bb) (b % bpb) == 0
    then none
    else some (put_block bb (unmark (b % bpb) (disk bb)) disk)
