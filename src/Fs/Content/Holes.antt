-- ===== src/Fs/Content/Holes.antt =====
-- The holes of an inode, and the free blocks that allocation fills them with.
use native.Mathlib.Decide.{ℕ_discrete}
use os.Prelude.{
  ap, ◌+◌, ◌*◌, ◌/◌, if◌then◌else◌, ◌==◌, ==_of_ne, ◌⊎◌, inl, inr, ◌≤◌, ℕ, ◌<◌, ◌≡◌, ◌≢◌, refl, sym,
  ◌∙◌, arith,
}
use os.Fs.Disk.{bsize, Disk}
use os.Fs.Bitmap.Marks.{in_use}
use os.Fs.Inode.{Inode, ndirect, maxfile}
use os.Fs.Content.Blocks.{owned, Fits}

-- What bmap of block bn may fill: that block, and the indirect block where it is needed.
abbrev pub Mapped : ℕ → ℕ → Type 0
Mapped bn k = (k ≡ bn) ⊎ ((k ≡ maxfile) × (ndirect ≤ bn))

-- The blocks that `count` bytes from off on need.
abbrev pub Wants : ℕ → ℕ → ℕ → Type 0
Wants off count k =
    ((off / bsize ≤ k) × (k * bsize < off + count))
    ⊎ ((k ≡ maxfile) × (ndirect * bsize < off + count))

pub Wants-Mapped :
    (off count : ℕ) → 0 < count → (k : ℕ) → Mapped (off / bsize) k → Wants off count k
Wants-Mapped off count p k (inl e) = inl (omega arith, omega arith)
Wants-Mapped off count p k (inr (e, l)) = inr (e, omega arith)

pub Wants-first : (off m count : ℕ) → m ≤ count → (k : ℕ) → Wants off m k → Wants off count k
Wants-first off m count l k (inl (p, q)) = inl (p, omega arith)
Wants-first off m count l k (inr (e, q)) = inr (e, omega arith)

pub Wants-later :
    (off m count rest : ℕ) → m + rest ≡ count → (k : ℕ) → Wants (off + m) rest k → Wants off count k
Wants-later off m count rest h k (inl (p, q)) = inl (omega arith, omega arith)
Wants-later off m count rest h k (inr (e, q)) = inr (e, omega arith)

module _ (n size : ℕ) where
  -- Fewer blocks are free than the holes of an inode that P wants filled: each free block can be
  -- given to a hole of its own, and then one of the holes has none.
  pub record Full (P : ℕ → Type 0) (ip : Inode) (disk : Disk) : Type 0 where
    pub gives : ℕ → ℕ
    pub taken :
        (c : ℕ)
        → c < size
        → in_use n disk c ≡ 0
        → (k : ℕ) × P k × (k ≤ maxfile) × (owned k ip disk ≡ 0) × (gives k ≡ c)
    pub hole : ℕ
    pub inside : hole ≤ maxfile
    pub wanted : P hole
    pub empty : owned hole ip disk ≡ 0
    pub left : gives hole ≡ 0

  -- The blocks that came into use since were given to holes that P wants filled.
  pub record Gains (P : ℕ → Type 0) (ip : Inode) (disk : Disk) (ip' : Inode) (disk' : Disk)
      : Type 0 where
    pub boot : in_use n disk 0 ≢ 0
    pub kept : (k : ℕ) → k ≤ maxfile → owned k ip disk ≢ 0 → owned k ip' disk' ≡ owned k ip disk
    pub gained :
        (c : ℕ)
        → c < size
        → in_use n disk c ≡ 0
        → in_use n disk' c ≢ 0
        → (k : ℕ) × P k × (k ≤ maxfile) × (owned k ip disk ≡ 0) × (owned k ip' disk' ≡ c)

  pub Gains-refl :
      (P : ℕ → Type 0) (ip : Inode) (disk : Disk) → Fits n size ip disk → Gains P ip disk ip disk
  Gains-refl P ip disk f = record {
    boot = f.guarded.metadata 0 (omega arith);
    kept = λ k l h. refl;
    gained = λ c l z h. absurd (h z);
  }

  -- The same inode and disk, as far as its blocks and the bitmap go.
  pub Gains-same :
      (P : ℕ → Type 0) (ip : Inode) (disk : Disk) (ip1 : Inode) (d1 : Disk) (ip2 : Inode)
      (d2 : Disk)
      → Gains P ip disk ip1 d1
      → ((k : ℕ) → owned k ip2 d2 ≡ owned k ip1 d1)
      → ((c : ℕ) → c < size → in_use n d2 c ≡ in_use n d1 c)
      → Gains P ip disk ip2 d2
  Gains-same P ip disk ip1 d1 ip2 d2 g o u = record {
    boot = g.boot;
    kept = λ k l h. o k ∙ g.kept k l h;
    gained = λ c l z h.
        let (k, p, m, e, q) = g.gained c l z (λ y. h (u c l ∙ y)) in (k, p, m, e, o k ∙ q);
  }

  pub Gains-weaken :
      {P Q : ℕ → Type 0} (ip : Inode) (disk : Disk) (ip' : Inode) (disk' : Disk)
      → ((k : ℕ) → P k → Q k)
      → Gains P ip disk ip' disk'
      → Gains Q ip disk ip' disk'
  Gains-weaken ip disk ip' disk' w g = record {
    boot = g.boot;
    kept = g.kept;
    gained = λ c l z h. let (k, p, m, e, q) = g.gained c l z h in (k, w k p, m, e, q);
  }

  was_hole :
      (P : ℕ → Type 0) (ip : Inode) (disk : Disk) (ip1 : Inode) (d1 : Disk) (k : ℕ)
      → Gains P ip disk ip1 d1
      → k ≤ maxfile
      → owned k ip1 d1 ≡ 0
      → owned k ip disk ≡ 0
  was_hole P ip disk ip1 d1 k g m z = elim (ℕ_discrete (owned k ip disk) 0) [
    | yes e ↦ e
    | no h ↦ sym (g.kept k m h) ∙ z
  ]

  pub Gains-trans :
      (P : ℕ → Type 0) (ip : Inode) (disk : Disk) (ip1 : Inode) (d1 : Disk) (ip2 : Inode)
      (d2 : Disk)
      → Gains P ip disk ip1 d1
      → Gains P ip1 d1 ip2 d2
      → Gains P ip disk ip2 d2
  Gains-trans P ip disk ip1 d1 ip2 d2 g h = record {
    boot = g.boot;
    kept = λ k l z. let e = g.kept k l z in h.kept k l (λ y. z (sym e ∙ y)) ∙ e;
    gained = λ c l z u. elim (ℕ_discrete (in_use n d1 c) 0) [
      | yes y ↦
          let (k, p, m, e, q) = h.gained c l y u in (k, p, m, was_hole P ip disk ip1 d1 k g m e, q)
      | no y ↦
          let (k, p, m, e, q) = g.gained c l z y in
          let t : c ≢ 0 = λ e. g.boot (ap (in_use n disk) (sym e) ∙ z) in
          (k, p, m, e, h.kept k m (λ x. t (sym q ∙ x)) ∙ q)
    ];
  }

  -- If the free blocks do not fill the holes that are left, those of before do not fill all.
  pub Full-after :
      (P : ℕ → Type 0) (ip : Inode) (disk : Disk) (ip1 : Inode) (d1 : Disk)
      → Gains P ip disk ip1 d1
      → Full P ip1 d1
      → Full P ip disk
  Full-after P ip disk ip1 d1 g u = record {
    gives = λ k. if owned k ip1 d1 == 0 then u.gives k else owned k ip1 d1;
    taken = λ c l z. elim (ℕ_discrete (in_use n d1 c) 0) [
      | yes y ↦
          let (k, p, m, e, q) = u.taken c l y in
          (k, p, m, was_hole P ip disk ip1 d1 k g m e, rw e q)
      | no y ↦
          let (k, p, m, e, q) = g.gained c l z y in
          let t : c ≢ 0 = λ e. g.boot (ap (in_use n disk) (sym e) ∙ z) in
          (k, p, m, e, rw (==_of_ne (owned k ip1 d1) 0 (λ x. t (sym q ∙ x))) q)
    ];
    hole = u.hole;
    inside = u.inside;
    wanted = u.wanted;
    empty = was_hole P ip disk ip1 d1 u.hole g u.inside u.empty;
    left = rw u.empty u.left;
  }

  pub Full-weaken :
      {P Q : ℕ → Type 0} (ip : Inode) (disk : Disk)
      → ((k : ℕ) → P k → Q k)
      → Full P ip disk
      → Full Q ip disk
  Full-weaken ip disk w u = record {
    gives = u.gives;
    taken = λ c l z. let (k, p, m, e, q) = u.taken c l z in (k, w k p, m, e, q);
    hole = u.hole;
    inside = u.inside;
    wanted = w u.hole u.wanted;
    empty = u.empty;
    left = u.left;
  }

  -- Where no block is free, one hole is too many.
  pub Full-all_used :
      (P : ℕ → Type 0) (k : ℕ) (ip : Inode) (disk : Disk)
      → P k
      → k ≤ maxfile
      → owned k ip disk ≡ 0
      → ((c : ℕ) → c < size → in_use n disk c ≢ 0)
      → Full P ip disk
  Full-all_used P k ip disk p l e a = record {
    gives = λ j. 0;
    taken = λ c l z. absurd (a c l z);
    hole = k;
    inside = l;
    wanted = p;
    empty = e;
    left = refl;
  }
