-- ===== src/Fs/Content/Round.antt =====
-- readi of what writei wrote.
use os.Prelude.{
  ℕ, zero, suc, ◌+◌, ◌-◌, ◌*◌, ◌/◌, ◌%◌, ◌^◌, ◌≤◌, ◌<◌, ◌≡◌, ◌≢◌, refl, sym, ap, ◌∙◌, arith, ◌==◌,
  ltb, leb, if◌then◌else◌, Bool-cases, ==_of_ne, inl, inr, true, false, Bool, List, [], ◌∷◌, some,
  min, ◌||◌, ◌&&◌, length, get_or, lt→ltb, ltb_of_le,
}
use mathlib.Core.Path.{subst}
use os.Fs.Disk.{bsize, Block, Disk, word}
use os.Fs.Inode.{Inode, ndirect, nindirect, maxfile}
use os.Fs.Content.{
  failed, answers, t_dev, slot, entry, bmap, bytes_at, prepend, read_loop, readi, writei,
}
use os.Fs.Content.Blocks.{owned, content, Fits}
use os.Fs.Content.Read.{bytes_at_same, bytes_at_append}
use os.Fs.Content.Refine.{Writei, Grown, new_size, writei-Writei}

-- A block that the inode owns is answered with no allocation.
bmap-owned :
    (bn : ℕ) (ip : Inode) (disk : Disk)
    → bn < maxfile
    → owned bn ip disk ≢ 0
    → bmap bn ip disk ≡ some (owned bn ip disk, ip, disk)
unfolding bmap slot entry
bmap-owned bn ip disk l h = elim (Bool-cases (ltb bn ndirect)) [
  | inl e ↦ let h' : (ip.addrs bn == 0) ≡ false = ground arith in rw (e, h') refl
  | inr e ↦
      let ind : (ip.addrs ndirect == 0) ≡ false = ground arith in
      let t : ltb (bn - ndirect) nindirect ≡ true =
        lt→ltb (bn - ndirect) nindirect (ground arith) in
      let m : (bn == maxfile) ≡ false = ground arith in
      let h' : (word (4 * (bn - ndirect)) (disk (ip.addrs ndirect)) == 0) ≡ false = ground arith in
      rw (e, t, m, ind, h') refl
]

read_loop-owned :
    (rounds left off : ℕ) (ip : Inode) (disk : Disk)
    → left ≤ rounds
    → off + left ≤ maxfile * bsize
    → ((o : ℕ) → off ≤ o → o < off + left → owned (o / bsize) ip disk ≢ 0)
    → read_loop rounds left off ip disk ≡ answers (bytes_at left off (content ip disk)) ip disk
unfolding read_loop bytes_at prepend
read_loop-owned zero zero off ip disk l b h = refl
read_loop-owned zero (suc left) off ip disk l b h = absurd (omega arith)
read_loop-owned (suc rounds) zero off ip disk l b h = refl
read_loop-owned (suc rounds) (suc left) off ip disk l b h =
    let m = min (suc left) (bsize - off % bsize) in
    let own = h off (omega arith) (omega arith) in
    let rest =
      read_loop-owned rounds (suc left - m) (off + m) ip disk (omega arith) (omega arith)
        (λ o p q. h o (omega arith) (omega arith)) in
    let piece =
      bytes_at_same m (off % bsize) off (disk (owned (off / bsize) ip disk)) (content ip disk)
        (λ k q. content_in_block m off k ip disk q (omega arith) own) in
    let joined =
      bytes_at_append m (suc left - m) off (suc left) (off + m) (content ip disk) (omega arith)
        refl in
    rw (read_loop, bmap-owned (off / bsize) ip disk (omega arith) own, rest, piece, prepend)
      (ap (λ bytes. answers bytes ip disk) joined)
  where
    content_in_block :
        (m off k : ℕ) (ip : Inode) (disk : Disk)
        → k < m
        → off % bsize + m ≤ bsize
        → owned (off / bsize) ip disk ≢ 0
        → disk (owned (off / bsize) ip disk) (off % bsize + k) ≡ content ip disk (off + k)
    content_in_block m off k ip disk q p own =
        let in_block : (off + k) / bsize ≡ off / bsize = omega arith in
        let at : (off + k) % bsize ≡ off % bsize + k = omega arith in
        rw (in_block, at, ==_of_ne (owned (off / bsize) ip disk) 0 own) refl

-- A read within the file, where the inode owns every block, changes nothing.
pub readi-owned :
    (has : ℕ → Bool) (off count : ℕ) (ip : Inode) (disk : Disk)
    → ip.type ≢ t_dev
    → off + count ≤ ip.size
    → ip.size ≤ maxfile * bsize
    → ((o : ℕ) → off ≤ o → o < off + count → owned (o / bsize) ip disk ≢ 0)
    → readi has off count ip disk ≡ answers (bytes_at count off (content ip disk)) ip disk
unfolding readi
readi-owned has off count ip disk t l b own =
    let a : ltb ip.size off ≡ false = ltb_of_le ip.size off (omega arith) in
    let b' : ltb ((off + count) % 2 ^ 32) off ≡ false =
      ltb_of_le ((off + count) % 2 ^ 32) off (omega arith) in
    let c : ltb ip.size (off + count) ≡ false = ltb_of_le ip.size (off + count) l in
    rw
      (
        (==_of_ne ip.type t_dev t),
        a,
        b',
        c,
        (read_loop-owned count count off ip disk (omega arith) (omega arith) own),
      )
      refl

pub bytes_of_list :
    (i : ℕ) (src : List ℕ) (f : Block)
    → ((k : ℕ) → k < length src → f (i + k) ≡ get_or src k 0)
    → bytes_at (length src) i f ≡ src
unfolding bytes_at
bytes_of_list i [] f h = refl
bytes_of_list i (c ∷ src) f h =
    let at : i + 0 ≡ i = omega arith in
    let first : f i ≡ c = ap f (sym at) ∙ h 0 (omega arith) in
    let rest =
      bytes_of_list (i + 1) src f
        (λ k l. let e : i + 1 + k ≡ i + suc k = omega arith in ap f e ∙ h (suc k) (omega arith)) in
    rw (first, rest) refl

failed≢answers : {A : Type 0} (a : A) (ip : Inode) (disk : Disk) → failed ≢ answers a ip disk
failed≢answers a ip disk e = cc

-- What writei wrote to an inode that is no device, readi reads back from the same offset, without a
-- panic, and it changes neither the inode nor the disk.
pub readi-writei :
    (n size : ℕ) (has : ℕ → Bool) (src : List ℕ) (off : ℕ) (ip : Inode) (disk : Disk) (count : ℕ)
    (ip' : Inode) (disk' : Disk)
    → ip.type ≢ t_dev
    → off < 2 ^ 32
    → length src < 2 ^ 32
    → Fits n size ip disk
    → writei has src off ip disk ≡ answers count ip' disk'
    → readi has off (length src) ip' disk' ≡ answers src ip' disk'
unfolding readi Writei Grown
readi-writei n size has src off ip disk count ip' disk' t l l' f e =
    let w : Writei n size src off ip disk (answers count ip' disk') =
      subst (Writei n size src off ip disk) e (writei-Writei n size has src off ip disk t l' l f) in
    let refused =
      ltb ip.size off
      || ltb ((off + length src) % 2 ^ 32) off
      || ltb (maxfile * bsize) ((off + length src) % 2 ^ 32) in
    let cases = λ (b : Bool).
      if b
      then answers count ip' disk' ≡ failed
      else Grown n size src off ip disk (answers count ip' disk') in
    elim (Bool-cases refused) [
      | inl g ↦ absurd (failed≢answers count ip' disk' (sym (subst cases g w)))
      | inr g ↦
          let (_, v, j) = subst cases g w in
          let type : ip'.type ≢ t_dev = λ z. t (sym (ap (λ p. p.type) j) ∙ z) in
          let s : ip'.size ≡ new_size off (length src) ip = ap (λ p. p.size) j in
          let big : off + length src ≤ ip'.size = ground arith in
          let inside : off + length src ≤ maxfile * bsize = ground arith in
          let a : ltb ip'.size off ≡ false = ltb_of_le ip'.size off (omega arith) in
          let b : ltb ((off + length src) % 2 ^ 32) off ≡ false =
            ltb_of_le ((off + length src) % 2 ^ 32) off (omega arith) in
          let c : ltb ip'.size (off + length src) ≡ false =
            ltb_of_le ip'.size (off + length src) big in
          let read =
            read_loop-owned (length src) (length src) off ip' disk' (omega arith) inside v.filled in
          let same = bytes_of_list off src (content ip' disk') (λ k q.
            byte src off k (content ip' disk' (off + k)) (content ip disk (off + k)) q
              (v.bytes (off + k) (omega arith))) in
          rw (==_of_ne ip'.type t_dev type, a, b, c, read, same) refl
    ]
  where
    byte :
        (src : List ℕ) (off k x y : ℕ)
        → k < length src
        → x ≡ (
            if leb off (off + k) && ltb (off + k) (off + length src)
            then get_or src (off + k - off) 0
            else y)
        → x ≡ get_or src k 0
    byte src off k x y l e =
        let i : off + k - off ≡ k = omega arith in
        let g = ap (λ j. get_or src j 0) i in ground arith
