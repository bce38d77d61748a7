-- ===== src/Mkfs/Bitmap.antt =====
-- The bitmap of the image, as the kernel reads it.
use os.Prelude.{
  ℕ, zero, suc, ◌+◌, ◌/◌, ◌%◌, ◌≤◌, ◌<◌, ◌≡◌, refl, arith, true, ◌&&◌, ltb, leb, if◌then◌else◌,
  some, lt→ltb,
}
use os.Fs.Disk.{Block, Disk, put_block}
use os.Fs.Bitmap.{bit, marked, mark, ipb, bblock, bpb}
use os.Fs.Bitmap.Bits.{marked-mark}
use os.Fs.Bitmap.Marks.{in_use, Guarded}
use os.Mkfs.{ninodes, size, first_used, zeroes, write_super, mark_from, balloc}

marked-mark_from :
    (left i : ℕ) (bytes : Block) (j : ℕ)
    → marked (mark_from left i bytes) j
      ≡ (if leb i j && ltb j (i + left) then 1 else marked bytes j)
unfolding mark_from
marked-mark_from zero i bytes j = ground arith
marked-mark_from (suc left) i bytes j =
    let rest = marked-mark_from left (i + 1) (mark i bytes) j in
    let one = marked-mark bytes i j in ground arith

bit-zero : (k : ℕ) → bit 0 k ≡ 0
unfolding bit
bit-zero zero = refl
bit-zero (suc k) = bit-zero k

-- The image after balloc.
abbrev pub image : ℕ → Disk → Disk
image used disk = put_block (ninodes / ipb + 3) (mark_from used 0 zeroes) (write_super disk)

-- The bitmap that mkfs writes for so many blocks in use, no fewer than the metadata and fewer than all,
-- says of each block whether it is one of these; and the metadata is in use, as the kernel's file
-- system takes it to be.
pub balloc_lem :
    (used : ℕ) (disk : Disk)
    → first_used ≤ used
    → used < size
    → (balloc used (write_super disk) ≡ some (image used disk))
      × Guarded ninodes size (image used disk)
      × ((c : ℕ) → c < size → in_use ninodes (image used disk) c ≡ (if ltb c used then 1 else 0))
unfolding balloc
balloc_lem used disk l h =
    let t : ltb used 4096 ≡ true = lt→ltb used 4096 (omega arith) in
    (
      (rw t refl),
      (record {
        metadata = λ c q. let m = marks used disk c (omega arith) in ground arith;
        room = omega arith;
      }),
      (marks used disk),
    )
  where
    marks :
        (used : ℕ) (disk : Disk) (c : ℕ)
        → c < size
        → in_use ninodes (image used disk) c ≡ (if ltb c used then 1 else 0)
    marks used disk c q =
        let here : bblock c ninodes ≡ 28 = omega arith in
        let at : c % bpb ≡ c = omega arith in
        let m = marked-mark_from used 0 zeroes c in
        let z = bit-zero (c % 8) in rw (here, at) (ground arith)
