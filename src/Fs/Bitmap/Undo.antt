-- ===== src/Fs/Bitmap/Undo.antt =====
-- bfree, alone and after balloc.
use os.Prelude.{
  ℕ, ◌%◌, ◌<◌, ◌≡◌, ◌≢◌, refl, sym, ap, ◌∙◌, arith, ◌==◌, if◌then◌else◌, Option, none, some,
  Option-cases, Bool-cases, inl, inr, ==_of_eq, ==_of_ne,
}
use mathlib.Core.Path.{subst}
use native.Mathlib.Decide.{ℕ_discrete}
use os.Fs.Disk.{Disk, word, fs_size, fs_ninodes}
use os.Fs.Bitmap.{bpb, marked, unmark, bblock, balloc, bfree}
use os.Fs.Bitmap.Bits.{marked-unmark}
use os.Fs.Bitmap.Marks.{in_use, Guarded, Allocates, Balloc, balloc-Balloc, change_at}

-- What bfree answers for a block: a panic if it is free, or the disk where it alone is freed.
pub Bfree : ℕ → ℕ → Disk → Option Disk → Type 0
Bfree n b disk none = in_use n disk b ≡ 0
Bfree n b disk (some disk') =
    (in_use n disk b ≢ 0)
    × ((c : ℕ) → in_use n disk' c ≡ (if b == c then 0 else in_use n disk c))
    × ((c : ℕ) → bblock b n ≢ c → disk' c ≡ disk c)

pub bfree-Bfree : (b : ℕ) (disk : Disk) → Bfree (fs_ninodes disk) b disk (bfree b disk)
unfolding bfree Bfree
bfree-Bfree b disk =
    let n = fs_ninodes disk in
    let old = disk (bblock b n) in
    elim (Bool-cases (marked old (b % bpb) == 0)) [
      | inl e ↦ rw e (ground arith)
      | inr e ↦ rw e (
        (ground arith),
        (λ c. change_at n b c 0 disk (unmark (b % bpb) old) (marked-unmark old (b % bpb))),
        (λ c q. rw (==_of_ne (bblock b n) c q) refl),
      )
    ]

-- The superblock stays as it is.
same_super :
    (n size : ℕ) (disk disk' : Disk) (b : ℕ)
    → Guarded n size disk
    → Allocates n size disk b disk'
    → fs_ninodes disk' ≡ fs_ninodes disk
same_super n size disk disk' b g a =
    let not_b : b ≢ 1 = λ e. g.metadata 1 (omega arith) (ap (in_use n disk) (sym e) ∙ a.free) in
    ap (word 8) (a.others 1 not_b (λ e. absurd (omega arith)))

-- Where the blocks of metadata are in use, a block that balloc gave can be freed again without a
-- panic, and then the bitmap says of every block what it said before.
pub bfree-balloc :
    (disk disk' : Disk) (b : ℕ)
    → Guarded (fs_ninodes disk) (fs_size disk) disk
    → balloc disk ≡ some (b, disk')
    → (disk'' : Disk) × (bfree b disk' ≡ some disk'')
      × ((c : ℕ)
          → c < fs_size disk
          → in_use (fs_ninodes disk) disk'' c ≡ in_use (fs_ninodes disk) disk c)
unfolding Balloc Bfree
bfree-balloc disk disk' b g e =
    let n = fs_ninodes disk in
    let size = fs_size disk in
    let a : Allocates n size disk b disk' = subst (Balloc n size disk) e (balloc-Balloc disk g) in
    let same = same_super n size disk disk' b g a in
    let used : in_use n disk' b ≡ 1 = a.marks b a.inside ∙ rw (==_of_eq b b refl) refl in
    let freed = subst (λ m. Bfree m b disk' (bfree b disk')) same (bfree-Bfree b disk') in
    elim (Option-cases (bfree b disk')) [
      | inl o ↦
          let z : in_use n disk' b ≡ 0 = subst (Bfree n b disk') o freed in absurd (omega arith)
      | inr (disk'', o) ↦
          let (_, marks, _) = subst (Bfree n b disk') o freed in
          (
            disk'',
            o,
            λ c l.
                let m = marks c in
                let m' = a.marks c l in restores n disk disk' disk'' b c a.free m m',
          )
    ]
  where
    restores :
        (n : ℕ) (disk disk' disk'' : Disk) (b c : ℕ)
        → in_use n disk b ≡ 0
        → in_use n disk'' c ≡ (if b == c then 0 else in_use n disk' c)
        → in_use n disk' c ≡ (if b == c then 1 else in_use n disk c)
        → in_use n disk'' c ≡ in_use n disk c
    restores n disk disk' disk'' b c z m m' = elim (ℕ_discrete b c) [
      | yes e ↦ let z' = ap (in_use n disk) (sym e) ∙ z in ground arith
      | no e ↦ ground arith
    ]
