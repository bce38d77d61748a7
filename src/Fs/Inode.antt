-- ===== src/Fs/Inode.antt =====
-- struct inode, its copy on the disk (struct dinode of fs.h), and iupdate. Shorts and uints are the
-- bits of them.
use os.Prelude.{ℕ, zero, suc, ◌+◌, ◌*◌, ◌/◌, ◌%◌, Bool, true}
use os.Fs.Disk.{Block, Disk, put_block, put_byte, word, put_word}
use os.Fs.Bitmap.{ipb}

abbrev pub ndirect : ℕ
ndirect = 12

abbrev pub nindirect : ℕ
nindirect = 128

-- MAXFILE
abbrev pub maxfile : ℕ
maxfile = 140

-- The two flags are I_BUSY and I_VALID.
pub record Inode : Type 0 where
  pub dev : ℕ
  pub inum : ℕ
  pub ref : ℕ
  pub busy : Bool
  pub valid : Bool
  pub type : ℕ
  pub major : ℕ
  pub minor : ℕ
  pub nlink : ℕ
  pub size : ℕ
  pub addrs : ℕ → ℕ

-- IBLOCK
abbrev pub iblock : ℕ → ℕ
iblock i = i / ipb + 2

-- The place of an inode in its block: sizeof(struct dinode) is 64.
abbrev pub dinode_at : ℕ → ℕ
dinode_at inum = inum % ipb * 64

-- A short at this place.
abbrev pub half : ℕ → Block → ℕ
half at bytes = bytes at + 256 * bytes (at + 1)

abbrev pub put_half : ℕ → ℕ → Block → Block
put_half at h bytes = put_byte at (h % 256) (put_byte (at + 1) (h / 256 % 256) bytes)

-- memmove of the first k words of addrs.
pub put_words : ℕ → ℕ → (ℕ → ℕ) → Block → Block
put_words zero at words bytes = bytes
put_words (suc k) at words bytes = put_words k at words (put_word (at + 4 * k) (words k) bytes)

pub put_dinode : ℕ → Inode → Block → Block
put_dinode at ip bytes = put_half at ip.type (
    put_half (at + 2) ip.major (
      put_half (at + 4) ip.minor (
        put_half (at + 6) ip.nlink
          (put_word (at + 8) ip.size (put_words (ndirect + 1) (at + 12) ip.addrs bytes)))))

abbrev pub iupdate : Inode → Disk → Disk
iupdate ip disk =
    let b = iblock ip.inum in put_block b (put_dinode (dinode_at ip.inum) ip (disk b)) disk

-- The part of ilock that reads the inode from the disk.
abbrev pub load : Inode → Disk → Inode
load ip disk =
    let bytes = disk (iblock ip.inum) in
    let at = dinode_at ip.inum in
    record ip {
      type = half at bytes;
      major = half (at + 2) bytes;
      minor = half (at + 4) bytes;
      nlink = half (at + 6) bytes;
      size = word (at + 8) bytes;
      addrs = λ i. word (at + 12 + 4 * i) bytes;
      valid = true;
    }
