-- ===== src/Mkfs/Tests.antt =====
-- Images with no file, and with as many blocks in files as there is room for before the log.
use os.Prelude.{ℕ, ◌<◌, ◌≡◌, some, arith, ltb, if◌then◌else◌}
use os.Fs.Disk.{Disk}
use os.Fs.Bitmap
use os.Fs.Bitmap.Marks.{in_use, Guarded}
use os.Mkfs.{balloc, write_super}
use os.Mkfs.Bitmap.{image, balloc_lem}
use os.Mkfs.Log.{balloc_takes_log}

abbrev blank : Disk
blank b i = 0

balloc_lem_example :
    (balloc 29 (write_super blank) ≡ some (image 29 blank))
    × Guarded 200 1024 (image 29 blank)
    × ((c : ℕ) → c < 1024 → in_use 200 (image 29 blank) c ≡ (if ltb c 29 then 1 else 0))
balloc_lem_example = balloc_lem 29 blank (omega arith) (omega arith)

balloc_takes_log_example : (disk' : Disk) × (Bitmap.balloc (image 994 blank) ≡ some (994, disk'))
balloc_takes_log_example = balloc_takes_log 994 blank (omega arith) (omega arith)
