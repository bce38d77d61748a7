-- ===== src/Fs/Content/Keep.antt =====
-- Reads leave device, number and reference count of the inode alone.
use os.Prelude.{
  ℕ, zero, suc, ◌+◌, ◌-◌, ◌*◌, ◌/◌, ◌%◌, ◌^◌, min, refl, ◌∙◌, Bool, true, false, ◌||◌, List, Option,
  none, some, ◌==◌, ltb, leb, not, Option-cases, if◌then◌else◌, Bool-cases, inl, inr, ◌>>=◌,
}
use mathlib.Core.Path.{subst}
use os.Fs.Disk.{bsize, Disk, word, put_word, put_block}
use os.Fs.Bitmap.{balloc}
use os.Fs.Inode.{Inode, ndirect, nindirect}
use os.Fs.Content.{
  Outcome, panicked, failed, device, answers, t_dev, ndev, to_device, slot, entry, bmap, set_addr,
  bytes_at, prepend, read_loop, readi,
}
use os.Fs.Content.Trunc.{Same}

-- The inode that is left, if there is no panic.
unfoldable pub Left : Inode → Option (ℕ × Inode × Disk) → Type 0
Left ip none = Unit
Left ip (some (a, q, d)) = Same ip q

unfoldable pub Leaves : {A : Type 0} → Inode → Outcome A → Type 0
Leaves ip (answers a q d) = Same ip q
Leaves ip o = Unit

pub Same-trans : (p q r : Inode) → Same p q → Same q r → Same p r
Same-trans p q r (a, b, c) (a', b', c') = (a' ∙ a, b' ∙ b, c' ∙ c)

Left-trans : (p q : Inode) (o : Option (ℕ × Inode × Disk)) → Same p q → Left q o → Left p o
unfolding Left
Left-trans p q none s l = tt
Left-trans p q (some (a, r, d)) s l = Same-trans p q r s l

Leaves-trans : {A : Type 0} (p q : Inode) (o : Outcome A) → Same p q → Leaves q o → Leaves p o
unfolding Leaves
Leaves-trans p q panicked s l = tt
Leaves-trans p q failed s l = tt
Leaves-trans p q (device d) s l = tt
Leaves-trans p q (answers a r d) s l = Same-trans p q r s l

Left-allocated :
    (ip : Inode) (o : Option (ℕ × Disk)) (f : ℕ → Inode) (g : ℕ → Disk → Disk)
    → ((b : ℕ) → Same ip (f b))
    → Left ip (o >>= λ (b, d). some (b, f b, g b d))
unfolding Left
Left-allocated ip none f g h = tt
Left-allocated ip (some (b, d)) f g h = h b

Left-slot : (k : ℕ) (ip : Inode) (disk : Disk) → Left ip (slot k ip disk)
unfolding slot Left
Left-slot k ip disk = elim (Bool-cases (ip.addrs k == 0)) [
  | inl e ↦
      rw e (
        Left-allocated ip (balloc disk) (λ b. set_addr k b ip) (λ b d. d) (λ b. (refl, refl, refl)))
  | inr e ↦ rw e (refl, refl, refl)
]

Left-entry : (bn addr : ℕ) (ip : Inode) (disk : Disk) → Left ip (entry bn addr ip disk)
unfolding entry Left
Left-entry bn addr ip disk = elim (Bool-cases (word (4 * bn) (disk addr) == 0)) [
  | inl e ↦ rw e (
      Left-allocated ip (balloc disk) (λ b. ip)
        (λ b d. put_block addr (put_word (4 * bn) b (d addr)) d) (λ b. (refl, refl, refl)))
  | inr e ↦ rw e (refl, refl, refl)
]

Left-through :
    (bn : ℕ) (ip : Inode) (o : Option (ℕ × Inode × Disk))
    → Left ip o
    → Left ip (o >>= λ (addr, q, d). entry bn addr q d)
unfolding Left
Left-through bn ip none l = tt
Left-through bn ip (some (a, q, d)) l = Left-trans ip q (entry bn a q d) l (Left-entry bn a q d)

Left-bmap : (bn : ℕ) (ip : Inode) (disk : Disk) → Left ip (bmap bn ip disk)
unfolding bmap Left
Left-bmap bn ip disk = elim (Bool-cases (ltb bn ndirect)) [
  | inl e ↦ rw e (Left-slot bn ip disk)
  | inr e ↦ elim (Bool-cases (ltb (bn - ndirect) nindirect)) [
    | inl h ↦
        rw (e, h)
          (Left-through (bn - ndirect) ip (slot ndirect ip disk) (Left-slot ndirect ip disk))
    | inr h ↦ rw (e, h) tt
  ]
]

Leaves-prepend :
    (piece : List ℕ) (ip : Inode) (o : Outcome (List ℕ)) → Leaves ip o → Leaves ip (prepend piece o)
unfolding prepend Leaves
Leaves-prepend piece ip panicked l = tt
Leaves-prepend piece ip failed l = tt
Leaves-prepend piece ip (device d) l = tt
Leaves-prepend piece ip (answers a q d) l = l

Leaves-read_loop :
    (rounds left off : ℕ) (ip : Inode) (disk : Disk) → Leaves ip (read_loop rounds left off ip disk)
unfolding read_loop Leaves Left
Leaves-read_loop zero left off ip disk = (refl, refl, refl)
Leaves-read_loop (suc rounds) zero off ip disk = (refl, refl, refl)
Leaves-read_loop (suc rounds) (suc left) off ip disk =
    let m = min (suc left) (bsize - off % bsize) in
    elim (Option-cases (bmap (off / bsize) ip disk)) [
      | inl e ↦ rw (read_loop, e) tt
      | inr ((a, q, d), e) ↦
          let s : Same ip q = subst (Left ip) e (Left-bmap (off / bsize) ip disk) in
          let rest = read_loop rounds (suc left - m) (off + m) q d in
          rw (read_loop, e)
            (Leaves-prepend (bytes_at m (off % bsize) (d a)) ip rest
              (Leaves-trans ip q rest s (Leaves-read_loop rounds (suc left - m) (off + m) q d)))
    ]

Leaves-if :
    (ip : Inode) (b : Bool) (o o' : Outcome (List ℕ))
    → Leaves ip o
    → Leaves ip o'
    → Leaves ip (if b then o else o')
Leaves-if ip true o o' l l' = l
Leaves-if ip false o o' l l' = l'

pub Leaves-readi :
    (has : ℕ → Bool) (off n : ℕ) (ip : Inode) (disk : Disk) → Leaves ip (readi has off n ip disk)
unfolding readi Leaves
Leaves-readi has off n ip disk =
    let all = read_loop (ip.size - off) (ip.size - off) off ip disk in
    let some_of = read_loop n n off ip disk in
    let content = if ltb ip.size (off + n) then all else some_of in
    let refused = ltb ip.size off || ltb ((off + n) % 2 ^ 32) off in
    Leaves-if ip (ip.type == t_dev) (to_device has ip) (if refused then failed else content)
      (Leaves-if ip (leb ndev ip.major || not (has ip.major)) failed (device ip.major) tt tt)
      (Leaves-if ip refused failed content tt (
        Leaves-if ip (ltb ip.size (off + n)) all some_of
          (Leaves-read_loop (ip.size - off) (ip.size - off) off ip disk)
          (Leaves-read_loop n n off ip disk)))
