-- ===== src/Fs/Samples.antt =====
-- A disk of 100 blocks whose first ten are in use, and a file and a directory on it.
use os.Prelude.{
  ◌≡◌, refl, true, false, Bool, ◌/◌, ℕ, zero, suc, ◌≤◌, ◌≢◌, arith, ◌==◌, if◌then◌else◌,
}
use os.Fs.Disk.{bsize, Disk}
use os.Fs.Inode.{Inode}
use os.Fs.Content.Blocks.{owned, Fits}
use os.Fs.Dir.Search.{Solid}
use os.Fs.Bitmap.{bit}
use os.Fs.Bitmap.Marks.{in_use, Guarded}

-- The superblock is block 1, with 100 blocks and 8 inodes; the bitmap is block 4.
abbrev pub small_disk : Disk
small_disk b i =
    if b == 1
    then (if i == 0 then 100 else if i == 8 then 8 else 0)
    else if b == 4
    then (if i == 0 then 255 else if i == 1 then 3 else 0)
    else 0

in_first_byte : (c : ℕ) → c ≤ 4 → in_use 8 small_disk c ≢ 0
unfolding bit
in_first_byte zero l e = absurd (omega arith)
in_first_byte (suc zero) l e = absurd (omega arith)
in_first_byte (suc (suc zero)) l e = absurd (omega arith)
in_first_byte (suc (suc (suc zero))) l e = absurd (omega arith)
in_first_byte (suc (suc (suc (suc zero)))) l e = absurd (omega arith)
in_first_byte (suc (suc (suc (suc (suc c))))) l e = absurd (omega arith)

pub small_disk-Guarded : Guarded 8 100 small_disk
unfolding bit
small_disk-Guarded = record { metadata = λ c l. in_first_byte c l; room = omega arith }

-- A file of 511 bytes in block 7.
abbrev pub file : Inode
file = record {
  dev = 1;
  inum = 3;
  ref = 1;
  busy = true;
  valid = true;
  type = 2;
  major = 0;
  minor = 0;
  nlink = 1;
  size = 511;
  addrs = λ i. if i == 0 then 7 else 0;
}

abbrev pub no_device : ℕ → Bool
no_device d = false

file_owns : (k : ℕ) → owned k file small_disk ≡ (if k == 0 then 7 else 0)
file_owns k = ground arith

file_place : (k : ℕ) → owned k file small_disk ≢ 0 → k ≡ 0
file_place k h = let e = file_owns k in ground arith

pub file-Fits : Fits 8 100 file small_disk
unfolding bit
file-Fits = record {
  ninodes = refl;
  blocks = refl;
  small = omega arith;
  guarded = small_disk-Guarded;
  inode = omega arith;
  behind = λ k l h. rw (file_place k h) (omega arith);
  inside = λ k l. let e = file_owns k in ground arith;
  used = λ k l h. rw (file_place k h) (λ e. absurd (omega arith));
  apart = λ k m l l' h e. let q = file_owns k in let r = file_owns m in ground arith;
}

-- A directory of two entries in block 7.
abbrev pub dir : Inode
dir = record file { type = 1; size = 32 }

pub dir-Solid : Solid 8 100 dir small_disk
dir-Solid = record {
  fits = record {
    ninodes = file-Fits.ninodes;
    blocks = file-Fits.blocks;
    small = file-Fits.small;
    guarded = file-Fits.guarded;
    inode = file-Fits.inode;
    behind = file-Fits.behind;
    inside = file-Fits.inside;
    used = file-Fits.used;
    apart = file-Fits.apart;
  };
  type = refl;
  whole = refl;
  short = omega arith;
  blocks = λ o l e.
      let z : o / bsize ≡ 0 = omega arith in let q = file_owns (o / bsize) in absurd (ground arith);
}
