-- ===== src/Mkfs/Log.antt =====
-- The blocks of the log, which end the image, are not marked in its bitmap.
use os.Prelude.{ℕ, ◌-◌, ◌≤◌, ◌<◌, ◌≡◌, ap, ◌∙◌, arith, some, Option-cases, inl, inr}
use mathlib.Core.Path.{subst}
use native.Mathlib.Decide.{dec_lt}
use os.Fs.Disk.{Disk}
use os.Fs.Bitmap
use os.Fs.Bitmap.Marks.{in_use, Allocates, Balloc, balloc-Balloc}
use os.Mkfs.{nlog, ninodes, size}
use os.Mkfs.Bitmap.{image, balloc_lem}

-- In an image that mkfs filled up to the log or beyond, the kernel's balloc does not panic: it gives
-- the first block that mkfs did not count, which is one of the log.
pub balloc_takes_log :
    (used : ℕ) (disk : Disk)
    → size - nlog ≤ used
    → used < size
    → (disk' : Disk) × (Bitmap.balloc (image used disk) ≡ some (used, disk'))
unfolding Balloc
balloc_takes_log used disk l h =
    let (_, g, marks) = balloc_lem used disk (omega arith) h in
    let full : in_use ninodes (image used disk) used ≡ 0 = let m = marks used h in ground arith in
    let spec : Balloc ninodes size (image used disk) (Bitmap.balloc (image used disk)) =
      balloc-Balloc (image used disk) g in
    elim (Option-cases (Bitmap.balloc (image used disk))) [
      | inl e ↦ absurd (subst (Balloc ninodes size (image used disk)) e spec used h full)
      | inr ((b, disk'), e) ↦
          let a : Allocates ninodes size (image used disk) b disk' =
            subst (Balloc ninodes size (image used disk)) e spec in
          let m = marks b a.inside in
          let f = a.free in
          let low : used ≤ b = ground arith in
          let same : b ≡ used = elim (dec_lt used b) [
            | yes q ↦ absurd (a.first used q full)
            | no q ↦ omega arith
          ] in
          (disk', e ∙ ap (λ c. some (c, disk')) same)
    ]
