-- ===== src/Fs/Content/Mapping.antt =====
-- bmap: which block it answers, and what the inode and the disk are then.
use os.Prelude.{
  ℕ, ◌+◌, ◌-◌, ◌*◌, ◌≤◌, ◌<◌, ◌≡◌, ◌≢◌, refl, sym, ap, ◌∙◌, arith, ◌==◌, ltb, lt→ltb, if◌then◌else◌,
  Bool-cases, ==_of_ne, ==_of_eq, inl, inr, ◌⊎◌, true, Option, none, some, ◌>>=◌,
}
use mathlib.Core.Path.{subst}
use os.Fs.Disk.{Disk, word, put_word, put_block}
use os.Fs.Words.{word-put_word}
use os.Fs.Bitmap.{balloc}
use os.Fs.Bitmap.Marks.{Allocates, Balloc}
use os.Fs.Inode.{Inode, ndirect, nindirect, maxfile}
use os.Fs.Content.{slot, entry, bmap, set_addr}
use os.Fs.Content.Holes.{
  Mapped, Gains, Gains-refl, Gains-weaken, Gains-trans, Full-after, Full-weaken, Full-all_used,
}
use os.Fs.Content.Steps.{Maps, Step-refl, Step-trans, allocates, grown_Maps}
use os.Fs.Content.Blocks.{owned, Fits, Step, fresh_behind, fresh_elsewhere}

module _ (n size : ℕ) where
  -- Place k of addrs is block idx that the inode owns.
  abbrev Slot : ℕ → ℕ → Type 0
  Slot k idx = ((k < ndirect) × (idx ≡ k)) ⊎ ((k ≡ ndirect) × (idx ≡ maxfile))

  Slot-owned : (k idx : ℕ) (ip : Inode) (disk : Disk) → Slot k idx → owned idx ip disk ≡ ip.addrs k
  Slot-owned k idx ip disk (inl (l, e)) = rw (e, lt→ltb k ndirect l) refl
  Slot-owned k idx ip disk (inr (e, i)) = rw (i, e) refl

  Slot-grows :
      (k idx b : ℕ) (ip : Inode) (disk d1 : Disk)
      → Slot k idx
      → Fits n size ip disk
      → Allocates n size disk b d1
      → ip.addrs k ≡ 0
      → (j : ℕ) → j ≤ maxfile
      → owned j (set_addr k b ip) d1 ≡ (if idx == j then b else owned j ip disk)
  Slot-grows k idx b ip disk d1 (inl (l, e)) f a z j m =
      let same = fresh_elsewhere n size b ip disk d1 f a maxfile (omega arith) in
      let words = (λ (h : ip.addrs ndirect ≢ 0). ap (word (4 * (j - ndirect))) (same h)) in
      ground arith
  Slot-grows k idx b ip disk d1 (inr (e, i)) f a z j m =
      let big = fresh_behind n size b ip disk d1 f a in
      let z' : ip.addrs ndirect ≡ 0 = ap ip.addrs (sym e) ∙ z in
      let q = 4 * (j - ndirect) in
      let z0 = a.zeroed q in
      let z1 = a.zeroed (q + 1) in
      let z2 = a.zeroed (q + 2) in
      let z3 = a.zeroed (q + 3) in
      let zw : word q (d1 b) ≡ 0 = omega arith in
      let at : (set_addr k b ip).addrs ndirect ≡ b = ground arith in ground arith

  Slot-inside : (k idx : ℕ) → Slot k idx → idx ≤ maxfile
  Slot-inside k idx (inl (l, e)) = omega arith
  Slot-inside k idx (inr (e, i)) = omega arith

  filled-Slot :
      (k idx : ℕ) (ip : Inode) (disk : Disk) (o : Option (ℕ × Disk))
      → Slot k idx
      → Fits n size ip disk
      → ip.addrs k ≡ 0
      → Balloc n size disk o
      → Maps n size idx ip disk (o >>= λ (b, disk'). some (b, set_addr k b ip, disk'))
  unfolding Balloc Maps
  filled-Slot k idx ip disk none s f z a =
      Full-all_used n size (Mapped idx) idx ip disk (inl refl) (Slot-inside k idx s)
        (Slot-owned k idx ip disk s ∙ z) a
  filled-Slot k idx ip disk (some (b, d1)) s f z a =
      grown_Maps n size idx b ip disk d1 (set_addr k b ip) d1
        (record {
          before = f;
          place = Slot-inside k idx s;
          empty = Slot-owned k idx ip disk s ∙ z;
          allocated = a;
          grows = Slot-grows k idx b ip disk d1 s f a z;
          others = λ c h. refl;
          inum = refl;
        })
        refl

  slot-Maps :
      (k idx : ℕ) (ip : Inode) (disk : Disk)
      → Slot k idx
      → Fits n size ip disk
      → Maps n size idx ip disk (slot k ip disk)
  unfolding slot Maps
  slot-Maps k idx ip disk s f = elim (Bool-cases (ip.addrs k == 0)) [
    | inr e ↦ rw e (
      sym (Slot-owned k idx ip disk s),
      ground arith,
      Step-refl n size ip disk f,
      Gains-refl n size (Mapped idx) ip disk f,
      refl,
    )
    | inl e ↦
        rw e
          (filled-Slot k idx ip disk (balloc disk) s f (ground arith) (allocates n size ip disk f))
  ]

  -- The words of the indirect block after block b was stored as its entry bn.
  abbrev with_entry : ℕ → ℕ → ℕ → Disk → Disk
  with_entry bn addr b disk = put_block addr (put_word (4 * bn) b (disk addr)) disk

  entry_owned :
      (bn : ℕ) (ip : Inode) (disk : Disk)
      → bn < nindirect
      → ip.addrs ndirect ≢ 0
      → owned (bn + ndirect) ip disk ≡ word (4 * bn) (disk (ip.addrs ndirect))
  entry_owned bn ip disk l h =
      let e : 4 * (bn + ndirect - ndirect) ≡ 4 * bn = omega arith in
      let w = ap (λ i. word i (disk (ip.addrs ndirect))) e in ground arith

  entry_grows :
      (bn b : ℕ) (ip : Inode) (disk d1 : Disk)
      → bn < nindirect
      → ip.addrs ndirect ≢ 0
      → Fits n size ip disk
      → Allocates n size disk b d1
      → (j : ℕ) → j ≤ maxfile
      → owned j ip (with_entry bn (ip.addrs ndirect) b d1)
        ≡ (if bn + ndirect == j then b else owned j ip disk)
  entry_grows bn b ip disk d1 l h f a j m =
      let same = fresh_elsewhere n size b ip disk d1 f a maxfile (omega arith) h in
      let w =
        word-put_word (j - ndirect) bn b (d1 (ip.addrs ndirect))
          (let i = a.inside in let t = f.small in omega arith) in
      let old = ap (word (4 * (j - ndirect))) same in
      let t = ==_of_eq (ip.addrs ndirect) (ip.addrs ndirect) refl in
      let there : with_entry bn (ip.addrs ndirect) b d1 (ip.addrs ndirect)
          ≡ put_word (4 * bn) b (d1 (ip.addrs ndirect)) =
        rw t refl in
      let read = ap (word (4 * (j - ndirect))) there in ground arith

  filled_entry :
      (bn : ℕ) (ip : Inode) (disk : Disk) (o : Option (ℕ × Disk))
      → bn < nindirect
      → ip.addrs ndirect ≢ 0
      → Fits n size ip disk
      → word (4 * bn) (disk (ip.addrs ndirect)) ≡ 0
      → Balloc n size disk o
      → Maps n size
          (bn + ndirect)
          ip
          disk
          (o >>= λ (b, disk'). some (b, ip, with_entry bn (ip.addrs ndirect) b disk'))
  unfolding Balloc Maps
  filled_entry bn ip disk none l h f z a =
      Full-all_used n size (Mapped (bn + ndirect)) (bn + ndirect) ip disk (inl refl) (omega arith)
        (entry_owned bn ip disk l h ∙ z) a
  filled_entry bn ip disk (some (b, d1)) l h f z a =
      grown_Maps n size (bn + ndirect) b ip disk d1 ip (with_entry bn (ip.addrs ndirect) b d1)
        (record {
          before = f;
          place = omega arith;
          empty = entry_owned bn ip disk l h ∙ z;
          allocated = a;
          grows = entry_grows bn b ip disk d1 l h f a;
          others = λ c q. rw (==_of_ne (ip.addrs ndirect) c q) refl;
          inum = refl;
        })
        refl

  entry-Maps :
      (bn : ℕ) (ip : Inode) (disk : Disk)
      → bn < nindirect
      → ip.addrs ndirect ≢ 0
      → Fits n size ip disk
      → Maps n size (bn + ndirect) ip disk (entry bn (ip.addrs ndirect) ip disk)
  unfolding entry Maps
  entry-Maps bn ip disk l h f = elim (Bool-cases (word (4 * bn) (disk (ip.addrs ndirect)) == 0)) [
    | inr e ↦ rw e (
      sym (entry_owned bn ip disk l h),
      ground arith,
      Step-refl n size ip disk f,
      Gains-refl n size (Mapped (bn + ndirect)) ip disk f,
      refl,
    )
    | inl e ↦
        rw e
          (filled_entry bn ip disk (balloc disk) l h f (ground arith) (allocates n size ip disk f))
  ]

  wider : (bn : ℕ) → (k : ℕ) → Mapped maxfile k → Mapped (bn + ndirect) k
  wider bn k (inl e) = inr (e, omega arith)
  wider bn k (inr (e, l)) = inr (e, omega arith)

  -- First the indirect block, then its entry.
  through :
      (bn : ℕ) (ip : Inode) (disk : Disk) (o : Option (ℕ × Inode × Disk))
      → bn < nindirect
      → Maps n size maxfile ip disk o
      → Maps n size (bn + ndirect) ip disk (o >>= λ (addr, ip', disk'). entry bn addr ip' disk')
  unfolding Maps
  through bn ip disk none l m = Full-weaken n size ip disk (wider bn) m
  through bn ip disk (some (addr, ip1, d1)) l (e, h, s, g, i) = rw e (
      compose bn ip disk ip1 d1 (entry bn (ip1.addrs ndirect) ip1 d1) s
        (Gains-weaken n size ip disk ip1 d1 (wider bn) g) i
        (entry-Maps bn ip1 d1 l (λ z. h (e ∙ z)) s.fits))
    where
      compose :
          (bn : ℕ) (ip : Inode) (disk : Disk) (ip1 : Inode) (d1 : Disk)
          (o : Option (ℕ × Inode × Disk))
          → Step n size ip disk ip1 d1
          → Gains n size (Mapped (bn + ndirect)) ip disk ip1 d1
          → ip1 ≡ record ip { addrs = ip1.addrs }
          → Maps n size (bn + ndirect) ip1 d1 o
          → Maps n size (bn + ndirect) ip disk o
      compose bn ip disk ip1 d1 none s g i m =
          Full-after n size (Mapped (bn + ndirect)) ip disk ip1 d1 g m
      compose bn ip disk ip1 d1 (some (a, ip2, d2)) s g i (e, h, t, g', j) =
          let with_addrs : Inode → Inode = λ p. record p { addrs = ip2.addrs } in
          (
            e,
            h,
            Step-trans n size ip disk ip1 d1 ip2 d2 s t,
            Gains-trans n size (Mapped (bn + ndirect)) ip disk ip1 d1 ip2 d2 g g',
            j ∙ ap with_addrs i,
          )

  -- bmap answers the block of the content with this number, which the inode owns; a hole is filled.
  pub bmap-Maps :
      (bn : ℕ) (ip : Inode) (disk : Disk)
      → bn < maxfile
      → Fits n size ip disk
      → Maps n size bn ip disk (bmap bn ip disk)
  unfolding bmap
  bmap-Maps bn ip disk l f = elim (Bool-cases (ltb bn ndirect)) [
    | inl e ↦ rw e (slot-Maps bn bn ip disk (inl (ground arith, refl)) f)
    | inr e ↦
        let t : ltb (bn - ndirect) nindirect ≡ true =
          lt→ltb (bn - ndirect) nindirect (ground arith) in
        let q : bn - ndirect + ndirect ≡ bn = ground arith in
        rw (e, t)
          (subst
            (λ k.
              Maps n size k ip disk (
                slot ndirect ip disk >>= λ (addr, ip', disk'). entry (bn - ndirect) addr ip' disk'))
            q
            (through (bn - ndirect) ip disk (slot ndirect ip disk) (ground arith)
              (slot-Maps ndirect maxfile ip disk (inr (refl, refl)) f)))
  ]
