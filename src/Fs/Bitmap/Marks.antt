-- ===== src/Fs/Bitmap/Marks.antt =====
-- What balloc and bfree do to the bitmap and to the blocks.
use os.Prelude.{
  ℕ, zero, suc, ◌+◌, ◌-◌, ◌*◌, ◌/◌, ◌%◌, ◌≤◌, ◌<◌, ◌≡◌, ◌≢◌, refl, sym, ap, ◌∙◌, arith, ◌==◌, ltb,
  if◌then◌else◌, Option, none, some, Bool-cases, ==_of_ne, inl, inr,
}
use native.Mathlib.Decide.{dec_lt, ℕ_discrete}
use os.Fs.Disk.{Block, Disk, put_block, fs_size, fs_ninodes, bzero}
use os.Fs.Bitmap.{bpb, bblock, marked, mark, find_bit, take_block, balloc_from, balloc}
use os.Fs.Bitmap.Bits.{marked-mark}

-- The bit of block c in the bitmap.
abbrev pub in_use : ℕ → Disk → ℕ → ℕ
in_use ninodes disk c = marked (disk (bblock c ninodes)) (c % bpb)

-- What the search of one block of the bitmap finds from bit bi on.
Found : ℕ → ℕ → ℕ → ℕ → Block → Option ℕ → Type 0
Found left b bi size bytes none =
    (j : ℕ) → bi ≤ j → j < bi + left → b + j < size → marked bytes j ≢ 0
Found left b bi size bytes (some k) =
    (bi ≤ k)
    × (k < bi + left)
    × (b + k < size)
    × (marked bytes k ≡ 0)
    × ((j : ℕ) → bi ≤ j → j < k → marked bytes j ≢ 0)

Found-later :
    (left b bi size : ℕ) (bytes : Block) (o : Option ℕ)
    → marked bytes bi ≢ 0
    → Found left b (bi + 1) size bytes o
    → Found (suc left) b bi size bytes o
unfolding Found
Found-later left b bi size bytes none h f = λ j g l s. elim (ℕ_discrete bi j) [
  | yes e ↦ rw (← e) h
  | no ne ↦ f j (omega arith) (omega arith) s
]
Found-later left b bi size bytes (some k) h (g, l, s, z, f) = (
  omega arith,
  omega arith,
  s,
  z,
  λ j p q. elim (ℕ_discrete bi j) [ yes e ↦ rw (← e) h | no ne ↦ f j (omega arith) q ],
)

find_bit-Found :
    (left b bi size : ℕ) (bytes : Block)
    → Found left b bi size bytes (find_bit left b bi size bytes)
unfolding find_bit Found
find_bit-Found zero b bi size bytes = λ j g l s. absurd (omega arith)
find_bit-Found (suc left) b bi size bytes = elim (Bool-cases (ltb (b + bi) size)) [
  | inr e ↦ rw e (λ j g l s. absurd (ground arith))
  | inl e ↦ elim (Bool-cases (marked bytes bi == 0)) [
    | inl z ↦
        rw (e, z)
          (omega arith, omega arith, ground arith, ground arith, λ j g l. absurd (omega arith))
    | inr z ↦
        rw (e, z)
          (Found-later left b bi size bytes (find_bit left b (bi + 1) size bytes) (ground arith)
            (find_bit-Found left b (bi + 1) size bytes))
  ]
]

-- A block of the bitmap is about the BPB blocks from b on.
in_use_at :
    (n b j : ℕ) (disk : Disk)
    → b % bpb ≡ 0
    → j < bpb
    → in_use n disk (b + j) ≡ marked (disk (bblock b n)) j
in_use_at n b j disk h l =
    let e : bblock (b + j) n ≡ bblock b n = omega arith in
    let r : (b + j) % bpb ≡ j = omega arith in rw (e, r) refl

-- The blocks of metadata are those up to the last of the bitmap, and they are in use.
pub record Guarded (n size : ℕ) (disk : Disk) : Type 0 where
  pub metadata : (c : ℕ) → c ≤ bblock size n → in_use n disk c ≢ 0
  pub room : bblock size n < size

-- b is the first free block; now it is in use and zeroed, and nothing else has changed.
pub record Allocates (n size : ℕ) (disk : Disk) (b : ℕ) (disk' : Disk) : Type 0 where
  pub inside : b < size
  pub free : in_use n disk b ≡ 0
  pub first : (c : ℕ) → c < b → in_use n disk c ≢ 0
  pub marks : (c : ℕ) → c < size → in_use n disk' c ≡ (if b == c then 1 else in_use n disk c)
  pub zeroed : (i : ℕ) → disk' b i ≡ 0
  pub others : (c : ℕ) → b ≢ c → bblock b n ≢ c → disk' c ≡ disk c

unfoldable pub Balloc : ℕ → ℕ → Disk → Option (ℕ × Disk) → Type 0
Balloc n size disk none = (c : ℕ) → c < size → in_use n disk c ≢ 0
Balloc n size disk (some (b, disk')) = Allocates n size disk b disk'

-- One bit changed in the bitmap of a disk.
pub change_at :
    (n b c v : ℕ) (disk : Disk) (bytes : Block)
    → ((j : ℕ) → marked bytes j ≡ (if b % bpb == j then v else marked (disk (bblock b n)) j))
    → in_use n (put_block (bblock b n) bytes disk) c ≡ (if b == c then v else in_use n disk c)
change_at n b c v disk bytes h = elim (Bool-cases (bblock b n == bblock c n)) [
  | inl e ↦
      let same : bblock b n ≡ bblock c n = ground arith in
      let here = h (c % bpb) in let old = ap (λ k. marked (disk k) (c % bpb)) same in ground arith
  | inr e ↦ ground arith
]

takes :
    (n size b bi : ℕ) (disk : Disk)
    → Guarded n size disk
    → b % bpb ≡ 0
    → bi < bpb
    → b + bi < size
    → marked (disk (bblock b n)) bi ≡ 0
    → ((c : ℕ) → c < b + bi → in_use n disk c ≢ 0)
    → Allocates n size disk
        (b + bi)
        (bzero (b + bi) (put_block (bblock b n) (mark bi (disk (bblock b n))) disk))
takes n size b bi disk g h l s z f =
    let e : bblock (b + bi) n ≡ bblock b n = omega arith in
    let at : (b + bi) % bpb ≡ bi = omega arith in
    let free : in_use n disk (b + bi) ≡ 0 = in_use_at n b bi disk h l ∙ z in
    let away : (c : ℕ) → c < size → b + bi ≢ bblock c n =
      λ c q r. g.metadata (bblock c n) (omega arith) (ap (in_use n disk) (sym r) ∙ free) in
    rw (← e) (record {
      inside = s;
      free = free;
      first = f;
      marks = λ c q. rw (==_of_ne (b + bi) (bblock c n) (away c q)) (
          change_at n (b + bi) c 1 disk (mark bi (disk (bblock (b + bi) n)))
            (λ j. rw at (marked-mark (disk (bblock (b + bi) n)) bi j)));
      zeroed = λ i. ground arith;
      others = λ c p q. rw (==_of_ne (b + bi) c p, ==_of_ne (bblock (b + bi) n) c q) refl;
    })

-- All blocks before b are in use, and k bits from b on are set.
used_up_to :
    (n size b k : ℕ) (disk : Disk)
    → b % bpb ≡ 0
    → k ≤ bpb
    → ((c : ℕ) → c < b → in_use n disk c ≢ 0)
    → ((j : ℕ) → j < k → b + j < size → marked (disk (bblock b n)) j ≢ 0)
    → (c : ℕ) → c < b + k
    → c < size
    → in_use n disk c ≢ 0
used_up_to n size b k disk h l f found c lt s = elim (dec_lt c b) [
  | yes p ↦ f c p
  | no q ↦
      let e : b + (c - b) ≡ c = omega arith in
      λ z.
        found (c - b) (omega arith) (omega arith)
          (sym (in_use_at n b (c - b) disk h (omega arith)) ∙ ap (in_use n disk) e ∙ z)
]

take_block-Balloc :
    (n size b : ℕ) (disk : Disk) (next : Option (ℕ × Disk)) (o : Option ℕ)
    → Guarded n size disk
    → b % bpb ≡ 0
    → ((c : ℕ) → c < b → in_use n disk c ≢ 0)
    → Found bpb b 0 size (disk (bblock b n)) o
    → (((c : ℕ) → c < b + bpb → c < size → in_use n disk c ≢ 0) → Balloc n size disk next)
    → Balloc n size disk (take_block b n disk next o)
unfolding take_block Found Balloc
take_block-Balloc n size b disk next none g h f found more =
    more (used_up_to n size b bpb disk h (omega arith) f (λ j l s. found j (omega arith) l s))
take_block-Balloc n size b disk next (some bi) g h f (_, l, s, z, found) more =
    takes n size b bi disk g h l s z (λ c q.
      used_up_to n size b bi disk h (omega arith) f (λ j p _. found j (omega arith) p) c q
        (omega arith))

balloc_from-Balloc :
    (rounds n size b : ℕ) (disk : Disk)
    → Guarded n size disk
    → b % bpb ≡ 0
    → size < b + rounds * bpb
    → ((c : ℕ) → c < b → c < size → in_use n disk c ≢ 0)
    → Balloc n size disk (balloc_from rounds b size n disk)
unfolding balloc_from Balloc
balloc_from-Balloc zero n size b disk g h r f = λ c l. f c (omega arith) l
balloc_from-Balloc (suc rounds) n size b disk g h r f = elim (Bool-cases (ltb b size)) [
  | inr e ↦ rw e (λ c l. f c (ground arith) l)
  | inl e ↦ rw e (
      take_block-Balloc n size b disk (balloc_from rounds (b + bpb) size n disk)
        (find_bit bpb b 0 size (disk (bblock b n))) g h (λ c l. f c l (ground arith))
        (find_bit-Found bpb b 0 size (disk (bblock b n)))
        (λ used.
          balloc_from-Balloc rounds n size (b + bpb) disk g (omega arith) (omega arith) used))
]

-- Where the blocks of metadata are in use themselves, balloc gives the first block that is free: it
-- marks it, and no other, as in use, zeroes it, and leaves all blocks but it and its block of the
-- bitmap as they are. It panics only when all blocks are in use.
pub balloc-Balloc :
    (disk : Disk)
    → Guarded (fs_ninodes disk) (fs_size disk) disk
    → Balloc (fs_ninodes disk) (fs_size disk) disk (balloc disk)
unfolding balloc
balloc-Balloc disk g =
    balloc_from-Balloc (fs_size disk / bpb + 1) (fs_ninodes disk) (fs_size disk) 0 disk g refl
      (omega arith) (λ c l. absurd (omega arith))
