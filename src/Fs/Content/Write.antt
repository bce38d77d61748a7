-- ===== src/Fs/Content/Write.antt =====
-- writei against the content of the inode.
use os.Prelude.{
  ℕ, zero, suc, ◌+◌, ◌-◌, ◌*◌, ◌/◌, ◌%◌, ◌≤◌, ◌<◌, ◌≡◌, ◌≢◌, refl, sym, ap, ◌∙◌, arith, ltb, leb,
  if◌then◌else◌, ==_of_ne, ==_of_eq, inl, inr, true, false, Bool, List, [], ◌∷◌, min, Option-cases,
  ◌&&◌, length, drop, get_or, length-drop,
}
use mathlib.Core.Path.{subst}
use native.Mathlib.Decide.{dec_lt, ℕ_discrete}
use os.Fs.Disk.{bsize, Block, Disk, put_block}
use os.Fs.Bitmap.Marks.{in_use}
use os.Fs.Inode.{Inode, maxfile}
use os.Fs.Content.{Outcome, panicked, failed, device, answers, bmap, overlay, write_loop}
use os.Fs.Content.Blocks.{owned, content, Fits, Step}
use os.Fs.Content.Holes.{
  Full, Gains, Wants, Wants-Mapped, Wants-later, Gains-refl, Gains-same, Gains-weaken, Gains-trans,
  Full-after, Full-weaken,
}
use os.Fs.Content.Steps.{Maps}
use os.Fs.Content.Mapping.{bmap-Maps}
use os.Fs.Content.Store.{stored-Fits, stored-in_use, stored-content, stored-owned}

get_or-drop : (m : ℕ) (xs : List ℕ) (i : ℕ) → get_or (drop m xs) i 0 ≡ get_or xs (m + i) 0
get_or-drop zero xs i = let e : i ≡ 0 + i = omega arith in ap (λ j. get_or xs j 0) e
get_or-drop (suc m) [] i = refl
get_or-drop (suc m) (x ∷ xs) i =
    let e : suc (m + i) ≡ suc m + i = omega arith in
    get_or-drop m xs i ∙ ap (λ j. get_or (x ∷ xs) j 0) e

-- First m bytes, then the others.
pub overlay_twice :
    (m off : ℕ) (src : List ℕ) (c : Block) (o : ℕ)
    → m ≤ length src
    → overlay (off + m) (length src - m) (drop m src) (overlay off m src c) o
      ≡ overlay off (length src) src c o
overlay_twice m off src c o l =
    let later : off + m ≤ o → get_or (drop m src) (o - (off + m)) 0 ≡ get_or src (o - off) 0 = λ h.
      let e : m + (o - (off + m)) ≡ o - off = omega arith in
      get_or-drop m src (o - (off + m)) ∙ ap (λ j. get_or src j 0) e in
    ground arith

module _ (n size : ℕ) where
  -- The content after a write: the bytes from off on are these, all others are as they were; the
  -- blocks that the inode owned it still owns, and new ones fill holes that the bytes need.
  pub record Written (src : List ℕ) (off : ℕ) (ip : Inode) (disk : Disk) (ip' : Inode)
      (disk' : Disk) : Type 0 where
    pub fits : Fits n size ip' disk'
    pub bytes :
        (o : ℕ)
        → o < maxfile * bsize
        → content ip' disk' o ≡ overlay off (length src) src (content ip disk) o
    pub filled : (o : ℕ) → off ≤ o → o < off + length src → owned (o / bsize) ip' disk' ≢ 0
    pub keeps : (k : ℕ) → k ≤ maxfile → owned k ip disk ≢ 0 → owned k ip' disk' ≡ owned k ip disk
    pub held : (c : ℕ) → c < size → in_use n disk c ≢ 0 → in_use n disk' c ≢ 0
    pub gained : Gains n size (Wants off (length src)) ip disk ip' disk'

  unfoldable pub Writes : List ℕ → ℕ → Inode → Disk → Outcome ℕ → Type 0
  Writes src off ip disk panicked = Full n size (Wants off (length src)) ip disk
  Writes src off ip disk failed = ⊥
  Writes src off ip disk (device d) = ⊥
  Writes src off ip disk (answers off' ip' disk') =
      (off' ≡ off + length src)
      × Written src off ip disk ip' disk'
      × (ip' ≡ record ip { addrs = ip'.addrs })

  -- One round of the loop.
  piece_written :
      (src : List ℕ) (m off : ℕ) (ip : Inode) (disk : Disk) (a : ℕ) (ip1 : Inode) (d1 : Disk)
      (o : ℕ)
      → off % bsize + m ≤ bsize
      → off + m ≤ maxfile * bsize
      → 0 < m
      → a ≡ owned (off / bsize) ip1 d1
      → a ≢ 0
      → Step n size ip disk ip1 d1
      → o < maxfile * bsize
      → content ip1 (put_block a (overlay (off % bsize) m src (d1 a)) d1) o
        ≡ overlay off m src (content ip disk) o
  piece_written src m off ip disk a ip1 d1 o p q g e h s l =
      let k = off / bsize in
      let b = overlay (off % bsize) m src (d1 (owned k ip1 d1)) in
      let h' : owned k ip1 d1 ≢ 0 = λ z. h (e ∙ z) in
      rw e (
        stored-content n size k b ip1 d1 s.fits (omega arith) h' o l
        ∙ elim (ℕ_discrete k (o / bsize)) [
          | no ne ↦
              let t = ==_of_ne k (o / bsize) ne in
              let old = s.same o l in
              let out : leb off o && ltb o (off + m) ≡ false = ground arith in rw (t, out) old
          | yes eq ↦
              let t = ==_of_eq k (o / bsize) eq in
              let old = s.same o l in
              let here : content ip1 d1 o ≡ d1 (owned k ip1 d1) (o % bsize) =
                rw (← eq, ==_of_ne (owned k ip1 d1) 0 h') refl in
              let i : leb (off % bsize) (o % bsize) && ltb (o % bsize) (off % bsize + m)
                  ≡ (leb off o && ltb o (off + m)) =
                ground arith in
              let j : leb off o && ltb o (off + m) ≡ true → o % bsize - off % bsize ≡ o - off =
                (λ w. ground arith) in
              rw (t, i)
                (tail_same src (leb off o && ltb o (off + m)) (o % bsize - off % bsize) (o - off) j
                  (sym here ∙ old))
        ])
    where
      tail_same :
          (src : List ℕ) (t : Bool) (i j : ℕ) {x y : ℕ}
          → (t ≡ true → i ≡ j)
          → x ≡ y
          → (if t then get_or src i 0 else x) ≡ (if t then get_or src j 0 else y)
      tail_same src true i j h e = ap (λ k. get_or src k 0) (h refl)
      tail_same src false i j h e = e

  -- What the block that bmap answered stands for stays as it is while its bytes change.
  mid_owned :
      (k a : ℕ) (b : Block) (ip1 : Inode) (d1 : Disk)
      → Fits n size ip1 d1
      → k < maxfile
      → a ≡ owned k ip1 d1
      → a ≢ 0
      → (j : ℕ) → owned j ip1 (put_block a b d1) ≡ owned j ip1 d1
  mid_owned k a b ip1 d1 f l e h j = rw e (stored-owned n size k b ip1 d1 f l (λ z. h (e ∙ z)) j)

  mid_in_use :
      (k a : ℕ) (b : Block) (ip1 : Inode) (d1 : Disk)
      → Fits n size ip1 d1
      → k < maxfile
      → a ≡ owned k ip1 d1
      → a ≢ 0
      → (c : ℕ) → c < size
      → in_use n (put_block a b d1) c ≡ in_use n d1 c
  mid_in_use k a b ip1 d1 f l e h c r =
      rw e (stored-in_use n size k b ip1 d1 f l (λ z. h (e ∙ z)) c r)

  mid_Gains :
      (src : List ℕ) (m off : ℕ) (ip : Inode) (disk : Disk) (a : ℕ) (ip1 : Inode) (d1 : Disk)
      → off / bsize < maxfile
      → a ≡ owned (off / bsize) ip1 d1
      → a ≢ 0
      → Step n size ip disk ip1 d1
      → Gains n size (Wants off (length src)) ip disk ip1 d1
      → Gains n size
          (Wants off (length src))
          ip
          disk
          ip1
          (put_block a (overlay (off % bsize) m src (d1 a)) d1)
  mid_Gains src m off ip disk a ip1 d1 l e h s y =
      let bytes = overlay (off % bsize) m src (d1 a) in
      Gains-same n size (Wants off (length src)) ip disk ip1 d1 ip1 (put_block a bytes d1) y
        (mid_owned (off / bsize) a bytes ip1 d1 s.fits l e h)
        (mid_in_use (off / bsize) a bytes ip1 d1 s.fits l e h)

  -- The first m bytes are written to the block that bmap answered, and then the others.
  Writes-on :
      (src : List ℕ) (m off : ℕ) (ip : Inode) (disk : Disk) (a : ℕ) (ip1 : Inode) (d1 : Disk)
      (o : Outcome ℕ)
      → off % bsize + m ≤ bsize
      → m ≤ length src
      → 0 < m
      → off + length src ≤ maxfile * bsize
      → a ≡ owned (off / bsize) ip1 d1
      → a ≢ 0
      → Step n size ip disk ip1 d1
      → Gains n size (Wants off (length src)) ip disk ip1 d1
      → ip1 ≡ record ip { addrs = ip1.addrs }
      → Writes (drop m src) (off + m) ip1 (put_block a (overlay (off % bsize) m src (d1 a)) d1) o
      → Writes src off ip disk o
  unfolding Writes
  Writes-on src m off ip disk a ip1 d1 failed p l g b e h s y i w = absurd w
  Writes-on src m off ip disk a ip1 d1 (device d) p l g b e h s y i w = absurd w
  Writes-on src m off ip disk a ip1 d1 panicked p l g b e h s y i w =
      let bytes = overlay (off % bsize) m src (d1 a) in
      let mid = put_block a bytes d1 in
      let len = length-drop m src in
      Full-after n size (Wants off (length src)) ip disk ip1 mid
        (mid_Gains src m off ip disk a ip1 d1 (omega arith) e h s y)
        (Full-weaken n size ip1 mid
          (Wants-later off m (length src) (length (drop m src)) (omega arith)) w)
  Writes-on src m off ip disk a ip1 d1 (answers off2 ip2 d2) p l g b e h s y i (q, w, j) =
      let with_addrs : Inode → Inode = λ r. record r { addrs = ip2.addrs } in
      let k = off / bsize in
      let bytes = overlay (off % bsize) m src (d1 a) in
      let len = length-drop m src in
      let mid = put_block a bytes d1 in
      let owns = mid_owned k a bytes ip1 d1 s.fits (omega arith) e h in
      (
        (omega arith),
        (record {
          fits = w.fits;
          bytes = λ o r.
              let part = piece_written src m off ip disk a ip1 d1 o p (omega arith) g e h s r in
              w.bytes o r ∙ rw (len, part) (overlay_twice m off src (content ip disk) o l);
          filled = λ o x y. elim (dec_lt o (off + m)) [
            | no q ↦ w.filled o (omega arith) (omega arith)
            | yes q ↦
                let in_block : o / bsize ≡ k = omega arith in
                let own : owned k ip1 mid ≢ 0 = λ z. h (e ∙ sym (owns k) ∙ z) in
                rw in_block (λ z. own (sym (w.keeps k (omega arith) own) ∙ z))
          ];
          keeps = λ k r z.
              let old = s.keeps k r z in
              w.keeps k r (λ y. z (sym old ∙ sym (owns k) ∙ y)) ∙ owns k ∙ old;
          held = λ c r z.
              w.held c r
                (rw (mid_in_use k a bytes ip1 d1 s.fits (omega arith) e h c r) (s.held c r z));
          gained =
              Gains-trans n size (Wants off (length src)) ip disk ip1 mid ip2 d2
                (mid_Gains src m off ip disk a ip1 d1 (omega arith) e h s y)
                (Gains-weaken n size ip1 mid ip2 d2
                  (Wants-later off m (length src) (length (drop m src)) (omega arith)) w.gained);
        }),
        (j ∙ ap with_addrs i),
      )

  pub nothing-Written :
      (off : ℕ) (ip : Inode) (disk : Disk) → Fits n size ip disk → Written [] off ip disk ip disk
  nothing-Written off ip disk f = record {
    fits = f;
    bytes = λ o l. ground arith;
    filled = λ o p q. absurd (omega arith);
    keeps = λ k l h. refl;
    held = λ c l h. h;
    gained = Gains-refl n size (Wants off 0) ip disk f;
  }

  pub write_loop-Writes :
      (rounds : ℕ) (src : List ℕ) (off : ℕ) (ip : Inode) (disk : Disk)
      → length src ≤ rounds
      → off + length src ≤ maxfile * bsize
      → Fits n size ip disk
      → Writes src off ip disk (write_loop rounds src off ip disk)
  unfolding write_loop Writes Maps
  write_loop-Writes zero [] off ip disk l b f = (omega arith, nothing-Written off ip disk f, refl)
  write_loop-Writes zero (c ∷ src) off ip disk l b f = absurd (omega arith)
  write_loop-Writes (suc rounds) [] off ip disk l b f =
      (omega arith, nothing-Written off ip disk f, refl)
  write_loop-Writes (suc rounds) (c ∷ src) off ip disk l b f =
      let k = off / bsize in
      let m = min (suc (length src)) (bsize - off % bsize) in
      let mapped = bmap-Maps n size k ip disk (omega arith) f in
      let len = length-drop m (c ∷ src) in
      elim (Option-cases (bmap k ip disk)) [
        | inl e ↦
            rw (write_loop, e)
              (Full-weaken n size ip disk (Wants-Mapped off (suc (length src)) (omega arith))
                (subst (Maps n size k ip disk) e mapped))
        | inr ((a, ip1, d1), e) ↦
            let (q, h, s, y, i) = subst (Maps n size k ip disk) e mapped in
            let bytes = overlay (off % bsize) m (c ∷ src) (d1 a) in
            let f' : Fits n size ip1 (put_block a bytes d1) = rw q (
              stored-Fits n size k (overlay (off % bsize) m (c ∷ src) (d1 (owned k ip1 d1))) ip1 d1
                s.fits (omega arith) (λ z. h (q ∙ z))) in
            rw (write_loop, e)
              (Writes-on (c ∷ src) m off ip disk a ip1 d1
                (write_loop rounds (drop m (c ∷ src)) (off + m) ip1 (put_block a bytes d1))
                (omega arith) (omega arith) (omega arith) b q h s
                (Gains-weaken n size ip disk ip1 d1
                  (Wants-Mapped off (suc (length src)) (omega arith)) y)
                i
                (write_loop-Writes rounds (drop m (c ∷ src)) (off + m) ip1 (put_block a bytes d1)
                  (omega arith) (omega arith) f'))
      ]
