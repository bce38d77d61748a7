-- ===== src/Fs/Content/Tests.antt =====
-- Reads and writes of the sample file, and the theorems at it.
use os.Prelude.{ℕ, ◌≡◌, refl, Option, none, some, arith, [], ◌∷◌}
use os.Fs.Disk.{Disk}
use os.Fs.Bitmap.{bit, find_bit, take_block, balloc_from, balloc, bfree, clear_bit}
use os.Fs.Samples.{small_disk, file, no_device, file-Fits}
use os.Fs.Inode.{Inode}
use os.Fs.Content.{
  Outcome, answers, slot, entry, bmap, readi, write_loop, grow, writei, itrunc, free_direct,
  free_entries, free_indirect,
}
use os.Fs.Content.Read.{ReadiAnswers, readi-ReadiAnswers}
use os.Fs.Content.Refine.{Writei, writei-Writei}
use os.Fs.Content.Round.{readi-writei}

-- The last byte of block 0, and two more in a new block.
abbrev written : Outcome ℕ
written = writei no_device (1 ∷ 2 ∷ 3 ∷ []) 511 file small_disk

abbrev inode_of : Outcome ℕ → Inode
inode_of (answers a ip disk) = ip
inode_of o = file

abbrev disk_of : Outcome ℕ → Disk
disk_of (answers a ip disk) = disk
disk_of o = small_disk

size_run : (inode_of written).size ≡ 514
unfolding writei write_loop grow bmap slot entry balloc balloc_from find_bit take_block bit
size_run = refl

block_run : (inode_of written).addrs 1 ≡ 10
unfolding writei write_loop grow bmap slot entry balloc balloc_from find_bit take_block bit
block_run = refl

written_lem : written ≡ answers 3 (inode_of written) (disk_of written)
unfolding writei write_loop grow bmap slot entry balloc balloc_from find_bit take_block bit
written_lem = refl

abbrev freed_disk : Option (Inode × Disk) → Disk
freed_disk none = small_disk
freed_disk (some (ip, disk)) = disk

-- itrunc frees block 7 and no other of the first ten.
itrunc_run : freed_disk (itrunc file small_disk) 4 0 ≡ 127
unfolding itrunc free_direct free_indirect free_entries bfree bit clear_bit
itrunc_run = refl

readi-writei_example :
    readi no_device 511 3 (inode_of written) (disk_of written)
    ≡ answers (1 ∷ 2 ∷ 3 ∷ []) (inode_of written) (disk_of written)
readi-writei_example =
    readi-writei 8 100 no_device (1 ∷ 2 ∷ 3 ∷ []) 511 file small_disk 3 (inode_of written)
      (disk_of written) (λ e. absurd (omega arith)) (omega arith) (omega arith) file-Fits
      written_lem

writei-Writei_example : Writei 8 100 (1 ∷ 2 ∷ 3 ∷ []) 511 file small_disk written
writei-Writei_example =
    writei-Writei 8 100 no_device (1 ∷ 2 ∷ 3 ∷ []) 511 file small_disk (λ e. absurd (omega arith))
      (omega arith) (omega arith) file-Fits

readi-ReadiAnswers_example :
    ReadiAnswers 8 100 500 20 file small_disk (readi no_device 500 20 file small_disk)
readi-ReadiAnswers_example =
    readi-ReadiAnswers 8 100 no_device 500 20 file small_disk (λ e. absurd (omega arith))
      (omega arith) file-Fits
