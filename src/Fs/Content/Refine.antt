-- ===== src/Fs/Content/Refine.antt =====
-- writei as a whole, and readi after it.
use os.Prelude.{
  ℕ, ◌+◌, ◌*◌, ◌/◌, ◌%◌, ◌^◌, ◌≤◌, ◌<◌, ◌≡◌, ◌≢◌, refl, sym, ap, ◌∙◌, arith, ltb, if◌then◌else◌,
  Bool-cases, ==_of_ne, inl, inr, Bool, List, ◌||◌, ◌&&◌, length,
}
use os.Fs.Disk.{bsize, Disk}
use os.Fs.Inode.{Inode, maxfile, iupdate}
use os.Fs.Content.{Outcome, panicked, failed, device, answers, t_dev, write_loop, grow, writei}
use os.Fs.Content.Blocks.{Fits}
use os.Fs.Content.Holes.{Full, Wants, Gains-same}
use os.Fs.Content.Store.{iupdate-Fits, iupdate-in_use, iupdate-content, iupdate-owned}
use os.Fs.Content.Write.{Written, Writes, write_loop-Writes}

-- The size after n bytes were written at off.
abbrev pub new_size : ℕ → ℕ → Inode → ℕ
new_size off n ip = if ltb ip.size (off + n) then off + n else ip.size

module _ (n size : ℕ) where
  resize_Fits :
      (s : ℕ) (ip : Inode) (disk : Disk)
      → Fits n size ip disk
      → Fits n size (record ip { size = s }) disk
  resize_Fits s ip disk f = record {
    ninodes = f.ninodes;
    blocks = f.blocks;
    small = f.small;
    guarded = f.guarded;
    inode = f.inode;
    behind = f.behind;
    inside = f.inside;
    used = f.used;
    apart = f.apart;
  }

  -- What a write answers that is not refused.
  unfoldable pub Grown : List ℕ → ℕ → Inode → Disk → Outcome ℕ → Type 0
  Grown src off ip disk panicked = Full n size (Wants off (length src)) ip disk
  Grown src off ip disk failed = ⊥
  Grown src off ip disk (device d) = ⊥
  Grown src off ip disk (answers count ip' disk') =
      (count ≡ length src)
      × Written n size src off ip disk ip' disk'
      × (ip' ≡ record ip { addrs = ip'.addrs; size = new_size off (length src) ip })

  updated_Written :
      (src : List ℕ) (off s : ℕ) (ip : Inode) (disk : Disk) (ip' : Inode) (disk' : Disk)
      → Written n size src off ip disk ip' disk'
      → Written n size src off ip disk
          (record ip' { size = s })
          (iupdate (record ip' { size = s }) disk')
  updated_Written src off s ip disk ip' disk' w =
      let ip2 : Inode = record ip' { size = s } in
      let f = resize_Fits s ip' disk' w.fits in
      record {
        fits = iupdate-Fits n size ip2 disk' f;
        bytes = λ o l. iupdate-content n size ip2 disk' f o l ∙ w.bytes o l;
        filled = λ o p q. rw (iupdate-owned n size ip2 disk' f (o / bsize)) (w.filled o p q);
        keeps = λ k l h. iupdate-owned n size ip2 disk' f k ∙ w.keeps k l h;
        held = λ c l h. rw (iupdate-in_use n size ip2 disk' f c l) (w.held c l h);
        gained =
            Gains-same n size (Wants off (length src)) ip disk ip' disk' ip2 (iupdate ip2 disk')
              w.gained (iupdate-owned n size ip2 disk' f) (iupdate-in_use n size ip2 disk' f);
      }

  grow-Grown :
      (src : List ℕ) (off : ℕ) (ip : Inode) (disk : Disk) (o : Outcome ℕ)
      → off ≤ ip.size
      → Writes n size src off ip disk o
      → Grown src off ip disk (grow (length src) o)
  unfolding grow Writes Grown
  grow-Grown src off ip disk panicked l w = w
  grow-Grown src off ip disk failed l w = absurd w
  grow-Grown src off ip disk (device d) l w = absurd w
  grow-Grown src off ip disk (answers off' ip' disk') l (e, w, j) =
      let s : ip'.size ≡ ip.size = ap (λ p. p.size) j in
      let sized : ℕ → Inode = λ m. record ip { addrs = ip'.addrs; size = m } in
      let cut : Inode → Inode = λ p. record p { size = off' } in
      elim (Bool-cases (ltb 0 (length src) && ltb ip'.size off')) [
        | inl t ↦
            let q : new_size off (length src) ip ≡ off' = ground arith in
            rw t
              (refl, updated_Written src off off' ip disk ip' disk' w, ap cut j ∙ ap sized (sym q))
        | inr t ↦
            let q : new_size off (length src) ip ≡ ip'.size = ground arith in
            rw t (refl, w, j ∙ ap sized (sym s ∙ sym q))
      ]

  unfoldable pub Writei : List ℕ → ℕ → Inode → Disk → Outcome ℕ → Type 0
  Writei src off ip disk o =
      if ltb ip.size off
        || ltb ((off + length src) % 2 ^ 32) off
        || ltb (maxfile * bsize) ((off + length src) % 2 ^ 32)
      then o ≡ failed
      else Grown src off ip disk o

  -- writei of an inode that is no device: it refuses an offset behind the end, a sum of offset and
  -- length that wraps around, and an end behind the greatest size of a file; else it answers the
  -- length, the content has the new bytes from the offset on and is the same anywhere else, the size
  -- is the old one or the end of the new bytes, and every block that was owned or in use still is;
  -- blocks that come into use fill holes that the bytes need. It panics only where fewer blocks are
  -- free than there are such holes.
  pub writei-Writei :
      (has : ℕ → Bool) (src : List ℕ) (off : ℕ) (ip : Inode) (disk : Disk)
      → ip.type ≢ t_dev
      → length src < 2 ^ 32
      → off < 2 ^ 32
      → Fits n size ip disk
      → Writei src off ip disk (writei has src off ip disk)
  unfolding writei Writei
  writei-Writei has src off ip disk t l l' f =
      elim (Bool-cases (ltb ip.size off || ltb ((off + length src) % 2 ^ 32) off)) [
        | inl e ↦ rw (==_of_ne ip.type t_dev t, e) refl
        | inr e ↦ elim (Bool-cases (ltb (maxfile * bsize) ((off + length src) % 2 ^ 32))) [
          | inl r ↦ rw (==_of_ne ip.type t_dev t, e, r) refl
          | inr r ↦
              rw (==_of_ne ip.type t_dev t, e, r)
                (grow-Grown src off ip disk (write_loop (length src) src off ip disk) (ground arith)
                  (write_loop-Writes n size (length src) src off ip disk (omega arith)
                    (ground arith) f))
        ]
      ]
