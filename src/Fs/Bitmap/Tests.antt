-- ===== src/Fs/Bitmap/Tests.antt =====
-- balloc and bfree on the sample disk.
use os.Prelude.{ℕ, ◌<◌, ◌≡◌, refl, Option, none, some}
use os.Fs.Disk.{Disk, bzero, put_block}
use os.Fs.Samples.{small_disk, small_disk-Guarded}
use os.Fs.Bitmap.{mark, bit, find_bit, take_block, balloc_from, balloc, bfree}
use os.Fs.Bitmap.Marks.{in_use, Balloc, balloc-Balloc}
use os.Fs.Bitmap.Undo.{bfree-balloc}

abbrev chosen : Option (ℕ × Disk) → ℕ
chosen none = 0
chosen (some (b, disk)) = b

balloc_run : chosen (balloc small_disk) ≡ 10
unfolding balloc balloc_from find_bit take_block bit
balloc_run = refl

balloc-Balloc_example : Balloc 8 100 small_disk (balloc small_disk)
balloc-Balloc_example = balloc-Balloc small_disk small_disk-Guarded

abbrev disk_after : Disk
disk_after = bzero 10 (put_block 4 (mark 10 (small_disk 4)) small_disk)

takes_ten : balloc small_disk ≡ some (10, disk_after)
unfolding balloc balloc_from find_bit take_block bit
takes_ten = refl

bfree-balloc_example :
    (disk'' : Disk) × (bfree 10 disk_after ≡ some disk'')
    × ((c : ℕ) → c < 100 → in_use 8 disk'' c ≡ in_use 8 small_disk c)
bfree-balloc_example = bfree-balloc small_disk disk_after 10 small_disk-Guarded takes_ten
