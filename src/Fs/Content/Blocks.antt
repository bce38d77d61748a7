-- ===== src/Fs/Content/Blocks.antt =====
-- The blocks that an inode owns, and what one block more does to them and to the content.
use os.Prelude.{
  ℕ, ◌-◌, ◌*◌, ◌/◌, ◌%◌, ◌^◌, ◌≤◌, ◌<◌, ◌≡◌, ◌≢◌, refl, sym, ap, ◌∙◌, arith, ◌==◌, ltb,
  if◌then◌else◌, Bool-cases, ==_of_ne, ==_of_eq, inl, inr,
}
use native.Mathlib.Decide.{dec_lt, ℕ_discrete}
use os.Fs.Disk.{bsize, Disk, word, fs_size, fs_ninodes}
use os.Fs.Bitmap.{bpb, bit, bblock}
use os.Fs.Bitmap.Marks.{in_use, Guarded, Allocates}
use os.Fs.Inode.{Inode, ndirect, maxfile}

-- Block k of the content, or 0, and the indirect block as block MAXFILE.
abbrev pub owned : ℕ → Inode → Disk → ℕ
owned k ip disk =
    if ltb k ndirect
    then ip.addrs k
    else if k == maxfile
    then ip.addrs ndirect
    else if ip.addrs ndirect == 0
    then 0
    else word (4 * (k - ndirect)) (disk (ip.addrs ndirect))

-- Byte o of the content.
abbrev pub content : Inode → Disk → ℕ → ℕ
content ip disk o = let a = owned (o / bsize) ip disk in if a == 0 then 0 else disk a (o % bsize)

module _ (n size : ℕ) where
  -- The inode owns blocks behind the metadata that are in use, and each of them once.
  pub record Fits (ip : Inode) (disk : Disk) : Type 0 where
    pub ninodes : fs_ninodes disk ≡ n
    pub blocks : fs_size disk ≡ size
    pub small : size < 2 ^ 32
    pub guarded : Guarded n size disk
    pub inode : ip.inum < n
    pub behind : (k : ℕ) → k ≤ maxfile → owned k ip disk ≢ 0 → bblock size n < owned k ip disk
    pub inside : (k : ℕ) → k ≤ maxfile → owned k ip disk < size
    pub used : (k : ℕ) → k ≤ maxfile → owned k ip disk ≢ 0 → in_use n disk (owned k ip disk) ≢ 0
    pub apart :
        (k l : ℕ)
        → k ≤ maxfile
        → l ≤ maxfile
        → owned k ip disk ≢ 0
        → owned k ip disk ≡ owned l ip disk
        → k ≡ l

  -- What bmap leaves of an inode and the disk: its content, and the blocks that it owns.
  pub record Step (ip : Inode) (disk : Disk) (ip' : Inode) (disk' : Disk) : Type 0 where
    pub fits : Fits ip' disk'
    pub same : (o : ℕ) → o < maxfile * bsize → content ip' disk' o ≡ content ip disk o
    pub keeps : (k : ℕ) → k ≤ maxfile → owned k ip disk ≢ 0 → owned k ip' disk' ≡ owned k ip disk
    pub held : (c : ℕ) → c < size → in_use n disk c ≢ 0 → in_use n disk' c ≢ 0

  -- Block b was allocated for block k0 of the inode, and stands there now.
  pub record Grows (k0 b : ℕ) (ip : Inode) (disk d1 : Disk) (ip' : Inode) (disk' : Disk)
      : Type 0 where
    pub before : Fits ip disk
    pub place : k0 ≤ maxfile
    pub empty : owned k0 ip disk ≡ 0
    pub allocated : Allocates n size disk b d1
    pub grows : (k : ℕ) → k ≤ maxfile → owned k ip' disk' ≡ (if k0 == k then b else owned k ip disk)
    pub others : (c : ℕ) → owned maxfile ip disk ≢ c → disk' c ≡ d1 c
    pub inum : ip'.inum ≡ ip.inum

module _ (n size b : ℕ) (ip : Inode) (disk d1 : Disk) (f : Fits n size ip disk)
    (a : Allocates n size disk b d1) where
  pub fresh_behind : bblock size n < b
  fresh_behind = elim (dec_lt (bblock size n) b) [
    | yes l ↦ l
    | no q ↦ absurd (f.guarded.metadata b (omega arith) a.free)
  ]

  -- An owned block is not the new one.
  pub fresh_other : (k : ℕ) → k ≤ maxfile → owned k ip disk ≢ 0 → b ≢ owned k ip disk
  fresh_other k l h e = f.used k l h (ap (in_use n disk) (sym e) ∙ a.free)

  pub fresh_elsewhere :
      (k : ℕ) → k ≤ maxfile → owned k ip disk ≢ 0 → d1 (owned k ip disk) ≡ disk (owned k ip disk)
  fresh_elsewhere k l h =
      let far = f.behind k l h in
      let near = a.inside in
      a.others (owned k ip disk) (fresh_other k l h) (λ e. absurd (omega arith))

module _ (n size k0 b : ℕ) (ip : Inode) (disk d1 : Disk) (ip' : Inode) (disk' : Disk)
    (g : Grows n size k0 b ip disk d1 ip' disk') where
  b_behind : bblock size n < b
  b_behind = fresh_behind n size b ip disk d1 g.before g.allocated

  not_b : (k : ℕ) → k ≤ maxfile → owned k ip disk ≢ 0 → b ≢ owned k ip disk
  not_b = fresh_other n size b ip disk d1 g.before g.allocated

  b_not_indirect : owned maxfile ip disk ≢ b
  b_not_indirect e = not_b maxfile (omega arith) (λ z. absurd (omega (arith, b_behind))) (sym e)

  -- The indirect block is none of the metadata.
  indirect_behind : (c : ℕ) → 0 < c → c ≤ bblock size n → owned maxfile ip disk ≢ c
  indirect_behind c p l e =
      let q = g.before.behind maxfile (omega arith) (λ z. absurd (omega arith)) in
      absurd (omega arith)

  pub marks_then : (c : ℕ) → c < size → in_use n disk' c ≡ (if b == c then 1 else in_use n disk c)
  marks_then c l =
      ap (λ block. bit (block (c % bpb / 8)) (c % bpb % 8))
        (g.others (bblock c n) (indirect_behind (bblock c n) (omega arith) (omega arith)))
      ∙ g.allocated.marks c l

  -- Neither metadata but the bitmap nor owned blocks but the indirect one have changed.
  block_then : (c : ℕ) → owned maxfile ip disk ≢ c → b ≢ c → bblock b n ≢ c → disk' c ≡ disk c
  block_then c p q r = g.others c p ∙ g.allocated.others c q r

  super_then : disk' 1 ≡ disk 1
  super_then =
      block_then 1 (indirect_behind 1 (omega arith) (omega arith))
        (λ e. absurd (omega (arith, b_behind))) (λ e. absurd (omega arith))

  new_at : (k : ℕ) → k ≤ maxfile → k0 ≡ k → owned k ip' disk' ≡ b
  new_at k l e = g.grows k l ∙ rw (==_of_eq k0 k e) refl

  old_at : (k : ℕ) → k ≤ maxfile → k0 ≢ k → owned k ip' disk' ≡ owned k ip disk
  old_at k l e = g.grows k l ∙ rw (==_of_ne k0 k e) refl

  used_then : (k : ℕ) → k ≤ maxfile → owned k ip' disk' ≢ 0 → in_use n disk' (owned k ip' disk') ≢ 0
  used_then k l h = elim (ℕ_discrete k0 k) [
    | yes e ↦
        rw (new_at k l e)
          (let m = marks_then b g.allocated.inside in let t = ==_of_eq b b refl in ground arith)
    | no e ↦
        let o = old_at k l e in
        rw o (
          let h' : owned k ip disk ≢ 0 = λ z. h (o ∙ z) in
          let m = marks_then (owned k ip disk) (g.before.inside k l) in
          let u = g.before.used k l h' in
          let t = ==_of_ne b (owned k ip disk) (not_b k l h') in ground arith)
  ]

  apart_then :
      (k l : ℕ)
      → k ≤ maxfile
      → l ≤ maxfile
      → owned k ip' disk' ≢ 0
      → owned k ip' disk' ≡ owned l ip' disk'
      → k ≡ l
  apart_then k l p q h e = elim (ℕ_discrete k0 k) [
    | yes i ↦ elim (ℕ_discrete k0 l) [
      | yes j ↦ sym i ∙ j
      | no j ↦
          let s = sym (new_at k p i) ∙ e ∙ old_at l q j in
          absurd (not_b l q (λ z. h (e ∙ old_at l q j ∙ z)) s)
    ]
    | no i ↦
        let o = old_at k p i in
        let h' : owned k ip disk ≢ 0 = λ z. h (o ∙ z) in
        elim (ℕ_discrete k0 l) [
          | yes j ↦ absurd (not_b k p h' (sym (new_at l q j) ∙ sym e ∙ o))
          | no j ↦ g.before.apart k l p q h' (sym o ∙ e ∙ old_at l q j)
        ]
  ]

  fits_then : Fits n size ip' disk'
  fits_then = record {
    ninodes = ap (word 8) super_then ∙ g.before.ninodes;
    blocks = ap (word 0) super_then ∙ g.before.blocks;
    small = g.before.small;
    guarded = record {
      metadata = λ c l.
          let room = g.before.guarded.room in
          let m = marks_then c (omega arith) in
          let t = ==_of_ne b c (λ e. absurd (omega (arith, b_behind))) in
          let u = g.before.guarded.metadata c l in ground arith;
      room = g.before.guarded.room;
    };
    inode = rw g.inum g.before.inode;
    behind = λ k l h. elim (ℕ_discrete k0 k) [
      | yes e ↦ rw (new_at k l e) b_behind
      | no e ↦ rw (old_at k l e) (g.before.behind k l (λ z. h (old_at k l e ∙ z)))
    ];
    inside = λ k l. elim (ℕ_discrete k0 k) [
      | yes e ↦ rw (new_at k l e) g.allocated.inside
      | no e ↦ rw (old_at k l e) (g.before.inside k l)
    ];
    used = used_then;
    apart = apart_then;
  }

  -- The new block holds zeros, as the hole that was there.
  same_then : (o : ℕ) → o < maxfile * bsize → content ip' disk' o ≡ content ip disk o
  same_then o l =
      let k = o / bsize in
      let p : k < maxfile = omega arith in
      elim (ℕ_discrete k0 k) [
        | yes e ↦
            let z : owned k ip disk ≡ 0 = ap (λ j. owned j ip disk) (sym e) ∙ g.empty in
            rw (new_at k (omega arith) e, z)
              (let y =
                  ap (λ block. block (o % bsize)) (g.others b b_not_indirect)
                  ∙ g.allocated.zeroed (o % bsize) in
                ground arith)
        | no e ↦ rw (old_at k (omega arith) e) (hole_or_same k (o % bsize) p)
      ]
    where
      hole_or_same :
          (k i : ℕ)
          → k < maxfile
          → (if owned k ip disk == 0 then 0 else disk' (owned k ip disk) i)
            ≡ (if owned k ip disk == 0 then 0 else disk (owned k ip disk) i)
      hole_or_same k i p = elim (Bool-cases (owned k ip disk == 0)) [
        | inl e ↦ rw e refl
        | inr e ↦
            let h : owned k ip disk ≢ 0 = ground arith in
            let far = g.before.behind k (omega arith) h in
            let near = g.allocated.inside in
            let own : owned maxfile ip disk ≢ owned k ip disk = λ q.
              let m = g.before.apart maxfile k (omega arith) (omega arith) (λ z. h (sym q ∙ z)) q in
              absurd (omega arith) in
            rw e (
              ap (λ block. block i)
                (block_then (owned k ip disk) own (not_b k (omega arith) h)
                  (λ q. absurd (omega arith))))
      ]

  pub grows-Step : Step n size ip disk ip' disk'
  grows-Step = record {
    fits = fits_then;
    same = same_then;
    keeps = λ k l h. old_at k l (λ e. h (ap (λ j. owned j ip disk) (sym e) ∙ g.empty));
    held = λ c l h. let m = marks_then c l in ground arith;
  }
