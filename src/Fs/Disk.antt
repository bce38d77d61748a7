-- ===== src/Fs/Disk.antt =====
-- What fs.c finds on the disk: blocks of bytes, numbers in them, and the superblock. The disk is its
-- contents within one transaction: bread gives what the last log_write of the block left. The places
-- of a block from BSIZE on stand for nothing.
use os.Prelude.{ℕ, ◌+◌, ◌*◌, ◌/◌, ◌%◌, ◌==◌, if◌then◌else◌}

abbrev pub bsize : ℕ
bsize = 512

abbrev pub Block : Type 0
Block = ℕ → ℕ

abbrev pub Disk : Type 0
Disk = ℕ → Block

-- log_write of block b, with these bytes.
abbrev pub put_block : ℕ → Block → Disk → Disk
put_block b bytes disk i = if b == i then bytes else disk i

abbrev pub put_byte : ℕ → ℕ → Block → Block
put_byte at byte bytes i = if at == i then byte else bytes i

-- A uint at this place, the low byte first.
abbrev pub word : ℕ → Block → ℕ
word at bytes = bytes at + 256 * bytes (at + 1) + 65536 * bytes (at + 2) + 16777216 * bytes (at + 3)

abbrev pub put_word : ℕ → ℕ → Block → Block
put_word at w bytes = put_byte at (w % 256) (
    put_byte (at + 1) (w / 256 % 256)
      (put_byte (at + 2) (w / 65536 % 256) (put_byte (at + 3) (w / 16777216 % 256) bytes)))

-- readsb: the size and the number of inodes of struct superblock.
abbrev pub fs_size : Disk → ℕ
fs_size disk = word 0 (disk 1)

abbrev pub fs_ninodes : Disk → ℕ
fs_ninodes disk = word 8 (disk 1)

abbrev pub bzero : ℕ → Disk → Disk
bzero b disk = put_block b (λ i. 0) disk
