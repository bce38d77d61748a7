-- ===== src/Fs/Content/Steps.antt =====
-- What an allocation for an inode leaves of it and of the disk.
use os.Prelude.{inl, ℕ, ◌≡◌, ◌≢◌, refl, sym, ◌∙◌, arith, ==_of_eq, Option, none, some}
use mathlib.Core.Path.{subst}
use os.Fs.Disk.{Disk, fs_size}
use os.Fs.Bitmap.{balloc}
use os.Fs.Bitmap.Marks.{Guarded, Balloc, balloc-Balloc}
use os.Fs.Inode.{Inode}
use os.Fs.Content.Blocks.{owned, Fits, Step, Grows, fresh_behind, grows-Step, marks_then}
use os.Fs.Content.Holes.{Mapped, Full, Gains}

module _ (n size : ℕ) where
  -- What an allocation for block k of an inode answers: the block, and the inode and disk after a
  -- step; or it panics where too few are free.
  unfoldable pub Maps : ℕ → Inode → Disk → Option (ℕ × Inode × Disk) → Type 0
  Maps k ip disk none = Full n size (Mapped k) ip disk
  Maps k ip disk (some (a, ip', disk')) =
      (a ≡ owned k ip' disk')
      × (a ≢ 0)
      × Step n size ip disk ip' disk'
      × Gains n size (Mapped k) ip disk ip' disk'
      × (ip' ≡ record ip { addrs = ip'.addrs })

  pub Step-refl : (ip : Inode) (disk : Disk) → Fits n size ip disk → Step n size ip disk ip disk
  Step-refl ip disk f = record {
    fits = f;
    same = λ o l. refl;
    keeps = λ k l h. refl;
    held = λ c l h. h;
  }

  pub Step-trans :
      (ip : Inode) (disk : Disk) (ip1 : Inode) (d1 : Disk) (ip2 : Inode) (d2 : Disk)
      → Step n size ip disk ip1 d1
      → Step n size ip1 d1 ip2 d2
      → Step n size ip disk ip2 d2
  Step-trans ip disk ip1 d1 ip2 d2 s t = record {
    fits = t.fits;
    same = λ o l. t.same o l ∙ s.same o l;
    keeps = λ k l h. let e = s.keeps k l h in t.keeps k l (λ z. h (sym e ∙ z)) ∙ e;
    held = λ c l h. t.held c l (s.held c l h);
  }

  pub allocates :
      (ip : Inode) (disk : Disk) → Fits n size ip disk → Balloc n size disk (balloc disk)
  allocates ip disk f =
      subst (λ m. Balloc n m disk (balloc disk)) f.blocks
        (subst (λ m. Balloc m (fs_size disk) disk (balloc disk)) f.ninodes
          (balloc-Balloc disk (
            subst (λ m. Guarded m (fs_size disk) disk) (sym f.ninodes)
              (subst (λ m. Guarded n m disk) (sym f.blocks) f.guarded))))

  Grows-Gains :
      {P : ℕ → Type 0} (k0 b : ℕ) (ip : Inode) (disk d1 : Disk) (ip' : Inode) (disk' : Disk)
      → Grows n size k0 b ip disk d1 ip' disk'
      → P k0
      → Gains n size P ip disk ip' disk'
  Grows-Gains k0 b ip disk d1 ip' disk' g p = record {
    boot = g.before.guarded.metadata 0 (omega arith);
    kept = (grows-Step n size k0 b ip disk d1 ip' disk' g).keeps;
    gained = λ c l z h.
        let m = marks_then n size k0 b ip disk d1 ip' disk' g c l in
        let same : b ≡ c = ground arith in
        let there = g.grows k0 g.place ∙ rw (==_of_eq k0 k0 refl) refl in
        (k0, p, g.place, g.empty, there ∙ same);
  }

  -- An allocation that stands where it belongs.
  pub grown_Maps :
      (k0 b : ℕ) (ip : Inode) (disk d1 : Disk) (ip' : Inode) (disk' : Disk)
      → Grows n size k0 b ip disk d1 ip' disk'
      → ip' ≡ record ip { addrs = ip'.addrs }
      → Maps k0 ip disk (some (b, ip', disk'))
  unfolding Maps
  grown_Maps k0 b ip disk d1 ip' disk' g e =
      let big = fresh_behind n size b ip disk d1 g.before g.allocated in
      (
        (sym (g.grows k0 g.place ∙ rw (==_of_eq k0 k0 refl) refl)),
        (λ z. absurd (omega arith)),
        (grows-Step n size k0 b ip disk d1 ip' disk' g),
        (Grows-Gains k0 b ip disk d1 ip' disk' g (inl refl)),
        e,
      )
