-- ===== src/Mkfs.antt =====
-- mkfs.c: the superblock and the bitmap of the image that it writes. A sector is a block of the disk,
-- which wsect writes.
pub mod Bitmap
pub mod Log
mod Tests
use os.Prelude.{ℕ, zero, suc, ◌+◌, ◌-◌, ◌*◌, ◌/◌, ◌%◌, ◌==◌, ltb, if◌then◌else◌, Option, none, some}
use os.Log.{logsize}
use os.Fs.Disk.{Block, Disk, put_block, put_byte, put_word}
use os.Fs.Bitmap.{ipb, bit, set_bit, mark}

abbrev pub nblocks : ℕ
nblocks = 995 - logsize

abbrev pub nlog : ℕ
nlog = logsize

abbrev pub ninodes : ℕ
ninodes = 200

abbrev pub size : ℕ
size = 1024

abbrev pub bitblocks : ℕ
bitblocks = size / (512 * 8) + 1

-- usedblocks, before files are added.
abbrev pub first_used : ℕ
first_used = ninodes / ipb + 3 + bitblocks

abbrev pub zeroes : Block
zeroes i = 0

-- xint, and wsect of the superblock.
abbrev pub write_super : Disk → Disk
write_super disk =
    put_block 1
      (put_word 0 size (put_word 4 nblocks (put_word 8 ninodes (put_word 12 nlog zeroes)))) disk

-- The loop of balloc from i on, with so many rounds left.
pub mark_from : ℕ → ℕ → Block → Block
mark_from zero i bytes = bytes
mark_from (suc left) i bytes = mark_from left (i + 1) (mark i bytes)

-- `none` is the failed assertion.
pub balloc : ℕ → Disk → Option Disk
balloc used disk =
    if ltb used (512 * 8)
    then some (put_block (ninodes / ipb + 3) (mark_from used 0 zeroes) disk)
    else none
