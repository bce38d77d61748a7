-- ===== src/Fs/Content/Read.antt =====
-- readi against the content of the inode.
use os.Prelude.{
  length, ℕ, zero, suc, ◌+◌, ◌-◌, ◌*◌, ◌/◌, ◌%◌, ◌^◌, ◌≤◌, ◌<◌, ◌≡◌, ◌≢◌, refl, sym, ap, ◌∙◌, arith,
  ltb, if◌then◌else◌, Bool-cases, ==_of_ne, inl, inr, Bool, List, ◌++◌, min, Option-cases, ◌-◌,
  ◌||◌,
}
use mathlib.Core.Path.{subst}
use os.Fs.Disk.{bsize, Block, Disk}
use os.Fs.Inode.{Inode, maxfile}
use os.Fs.Content.{
  Outcome, panicked, failed, device, answers, t_dev, bytes_at, prepend, bmap, read_loop, readi,
}
use os.Fs.Content.Blocks.{owned, content, Fits, Step}
use os.Fs.Content.Holes.{
  Full, Gains, Wants, Wants-Mapped, Wants-later, Gains-weaken, Full-after, Full-weaken,
}
use os.Fs.Content.Steps.{Maps, Step-refl, Step-trans}
use os.Fs.Content.Mapping.{bmap-Maps}

pub bytes_at_same :
    (m i j : ℕ) (f g : Block)
    → ((k : ℕ) → k < m → f (i + k) ≡ g (j + k))
    → bytes_at m i f ≡ bytes_at m j g
unfolding bytes_at
bytes_at_same zero i j f g h = refl
bytes_at_same (suc m) i j f g h =
    let first : f i ≡ g j = ap f (omega arith) ∙ h 0 (omega arith) ∙ ap g (omega arith) in
    let rest =
      bytes_at_same m (i + 1) (j + 1) f g
        (λ k l. ap f (omega arith) ∙ h (suc k) (omega arith) ∙ ap g (omega arith)) in
    rw (first, rest) refl

pub length-bytes_at : (m i : ℕ) (bytes : ℕ → ℕ) → length (bytes_at m i bytes) ≡ m
unfolding bytes_at
length-bytes_at zero i bytes = refl
length-bytes_at (suc m) i bytes = ap suc (length-bytes_at m (i + 1) bytes)

pub bytes_at_append :
    (a b i n j : ℕ) (f : Block)
    → n ≡ a + b
    → j ≡ i + a
    → bytes_at a i f ++ bytes_at b j f ≡ bytes_at n i f
unfolding bytes_at
bytes_at_append zero b i n j f e h =
    let e' : n ≡ b = omega arith in let h' : j ≡ i = omega arith in rw (e', h') refl
bytes_at_append (suc a) b i zero j f e h = absurd (omega arith)
bytes_at_append (suc a) b i (suc n) j f e h =
    rw (bytes_at_append a b (i + 1) n j f (omega arith) (omega arith)) refl

module _ (n size : ℕ) where
  -- What a read of the bytes from off on answers: these bytes of the content, which stays as it is.
  pub Reads : ℕ → ℕ → Inode → Disk → Outcome (List ℕ) → Type 0
  Reads left off ip disk panicked = Full n size (Wants off left) ip disk
  Reads left off ip disk failed = ⊥
  Reads left off ip disk (device d) = ⊥
  Reads left off ip disk (answers bytes ip' disk') =
      (bytes ≡ bytes_at left off (content ip disk))
      × Step n size ip disk ip' disk'
      × (ip' ≡ record ip { addrs = ip'.addrs })

  -- A piece from the block that bmap answered.
  piece_read :
      (m off : ℕ) (ip : Inode) (disk : Disk) (a : ℕ) (ip1 : Inode) (d1 : Disk)
      → off % bsize + m ≤ bsize
      → off + m ≤ maxfile * bsize
      → a ≡ owned (off / bsize) ip1 d1
      → a ≢ 0
      → Step n size ip disk ip1 d1
      → bytes_at m (off % bsize) (d1 a) ≡ bytes_at m off (content ip disk)
  piece_read m off ip disk a ip1 d1 p q e h s =
      bytes_at_same m (off % bsize) off (d1 a) (content ip disk) (λ k l.
        let in_block : (off + k) / bsize ≡ off / bsize = omega arith in
        let at : (off + k) % bsize ≡ off % bsize + k = omega arith in
        let same = s.same (off + k) (omega arith) in
        let here : content ip1 d1 (off + k) ≡ d1 a (off % bsize + k) =
          rw (in_block, at, ← e, ==_of_ne a 0 h) refl in
        sym here ∙ same)

  prepend-Reads :
      (left m off : ℕ) (piece : List ℕ) (ip : Inode) (disk : Disk) (ip1 : Inode) (d1 : Disk)
      (o : Outcome (List ℕ))
      → m ≤ left
      → off + left ≤ maxfile * bsize
      → piece ≡ bytes_at m off (content ip disk)
      → Step n size ip disk ip1 d1
      → Gains n size (Wants off left) ip disk ip1 d1
      → ip1 ≡ record ip { addrs = ip1.addrs }
      → Reads (left - m) (off + m) ip1 d1 o
      → Reads left off ip disk (prepend piece o)
  unfolding Reads prepend
  prepend-Reads left m off piece ip disk ip1 d1 panicked l b p s g i r =
      Full-after n size (Wants off left) ip disk ip1 d1 g
        (Full-weaken n size ip1 d1 (Wants-later off m left (left - m) (omega arith)) r)
  prepend-Reads left m off piece ip disk ip1 d1 failed l b p s g i r = absurd r
  prepend-Reads left m off piece ip disk ip1 d1 (device d) l b p s g i r = absurd r
  prepend-Reads left m off piece ip disk ip1 d1 (answers rest ip2 d2) l b p s g i (e, t, j) =
      let with_addrs : Inode → Inode = λ q. record q { addrs = ip2.addrs } in
      let rest_same =
        bytes_at_same (left - m) (off + m) (off + m) (content ip1 d1) (content ip disk)
          (λ k q. s.same (off + m + k) (omega arith)) in
      (
        (rw (p, e, rest_same)
            (bytes_at_append m (left - m) off left (off + m) (content ip disk) (omega arith) refl)),
        (Step-trans n size ip disk ip1 d1 ip2 d2 s t),
        (j ∙ ap with_addrs i),
      )

  pub read_loop-Reads :
      (rounds left off : ℕ) (ip : Inode) (disk : Disk)
      → left ≤ rounds
      → off + left ≤ maxfile * bsize
      → Fits n size ip disk
      → Reads left off ip disk (read_loop rounds left off ip disk)
  unfolding read_loop Reads Maps bytes_at
  read_loop-Reads zero zero off ip disk l b f = (refl, Step-refl n size ip disk f, refl)
  read_loop-Reads zero (suc left) off ip disk l b f = absurd (omega arith)
  read_loop-Reads (suc rounds) zero off ip disk l b f = (refl, Step-refl n size ip disk f, refl)
  read_loop-Reads (suc rounds) (suc left) off ip disk l b f =
      let k = off / bsize in
      let m = min (suc left) (bsize - off % bsize) in
      let mapped = bmap-Maps n size k ip disk (omega arith) f in
      elim (Option-cases (bmap k ip disk)) [
        | inl e ↦
            rw (read_loop, e)
              (Full-weaken n size ip disk (Wants-Mapped off (suc left) (omega arith))
                (subst (Maps n size k ip disk) e mapped))
        | inr ((a, ip1, d1), e) ↦
            let (q, h, s, g, i) = subst (Maps n size k ip disk) e mapped in
            rw (read_loop, e)
              (prepend-Reads (suc left) m off (bytes_at m (off % bsize) (d1 a)) ip disk ip1 d1
                (read_loop rounds (suc left - m) (off + m) ip1 d1) (omega arith) b
                (piece_read m off ip disk a ip1 d1 (omega arith) (omega arith) q h s) s
                (Gains-weaken n size ip disk ip1 d1 (Wants-Mapped off (suc left) (omega arith)) g) i
                (read_loop-Reads rounds (suc left - m) (off + m) ip1 d1 (omega arith) (omega arith)
                  s.fits))
      ]

  -- What readi answers for an inode that is no device.
  pub ReadiAnswers : ℕ → ℕ → Inode → Disk → Outcome (List ℕ) → Type 0
  ReadiAnswers off count ip disk o =
      if ltb ip.size off || ltb ((off + count) % 2 ^ 32) off
      then o ≡ failed
      else Reads (min count (ip.size - off)) off ip disk o

  -- readi of an inode that is no device, and whose size bmap can reach: it refuses an offset behind
  -- the end and a sum of offset and count that wraps around; else it answers the bytes of the content
  -- from the offset on, so many or as many as there are, and leaves the content as it is. It panics
  -- only where fewer blocks are free than these bytes have holes.
  pub readi-ReadiAnswers :
      (has : ℕ → Bool) (off count : ℕ) (ip : Inode) (disk : Disk)
      → ip.type ≢ t_dev
      → ip.size ≤ maxfile * bsize
      → Fits n size ip disk
      → ReadiAnswers off count ip disk (readi has off count ip disk)
  unfolding readi ReadiAnswers
  readi-ReadiAnswers has off count ip disk t z f =
      elim (Bool-cases (ltb ip.size off || ltb ((off + count) % 2 ^ 32) off)) [
        | inl e ↦ rw (==_of_ne ip.type t_dev t, e) refl
        | inr e ↦
            rw (==_of_ne ip.type t_dev t, e)
              (elim (Bool-cases (ltb ip.size (off + count))) [
                | inl s ↦
                    let c : min count (ip.size - off) ≡ ip.size - off = ground arith in
                    rw (s, c)
                      (read_loop-Reads (ip.size - off) (ip.size - off) off ip disk (omega arith)
                        (ground arith) f)
                | inr s ↦
                    let c : min count (ip.size - off) ≡ count = ground arith in
                    rw (s, c)
                      (read_loop-Reads count count off ip disk (omega arith) (ground arith) f)
              ])
      ]
