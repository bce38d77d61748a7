-- ===== src/Fs/Icache/Put.antt =====
-- What iput does to the cache.
use os.Prelude.{
  ℕ, zero, suc, ◌^◌, ◌<◌, ◌≡◌, refl, sym, ap, ◌∙◌, arith, true, false, ◌&&◌, List, [], ◌∷◌, Option,
  none, some, ◌==◌, if◌then◌else◌, get_elem?, modify, set, length, Bool-cases, Option-cases, inl,
  inr, some_inj, none≢some, get_elem?-set_self, get_elem?-set_ne, modify_at, ◌>>=◌,
}
use mathlib.Core.Path.{subst}
use native.Mathlib.Decide.{ℕ_discrete}
use os.Fs.Inode.{Inode}
use os.Fs.Content.{itrunc}
use os.Fs.Content.Trunc.{Same, itrunc-Kept}
use os.Fs.Icache.{Cache, ref_down, free_inode, unref, put_inode, iput}
use os.Fs.Icache.Unique.{Tidy, one_more}

-- A table whose entries are under the same numbers, and where inode i has one reference less.
less_Tidy :
    (inodes inodes' : List Inode) (refs : ℕ → ℕ) (i : ℕ)
    → Tidy inodes (one_more i refs)
    → ((j : ℕ) (q : Inode)
        → get_elem? inodes' j ≡ some q
        → (p : Inode) × (get_elem? inodes j ≡ some p)
          × (q.dev ≡ p.dev)
          × (q.inum ≡ p.inum)
          × (q.ref ≡ refs j))
    → Tidy inodes' refs
less_Tidy inodes inodes' refs i t from = record {
  counts = λ j q e. let (_, _, _, _, c) = from j q e in c;
  few = λ j. let b = t.few j in ground arith;
  once = λ j k p q e e' l l' d n.
      let (x, at, dx, nx, _) = from j p e in
      let (y, at', dy, ny, _) = from k q e' in
      t.once j k x y at at' (ground arith) (ground arith) (sym dx ∙ d ∙ dy) (sym nx ∙ n ∙ ny);
}

-- ip->ref-- of an entry whose number and count stand as they did.
unref_from :
    (inodes inodes' : List Inode) (refs : ℕ → ℕ) (i : ℕ)
    → Tidy inodes (one_more i refs)
    → ((j : ℕ) (q : Inode)
        → get_elem? inodes' j ≡ some q
        → (p : Inode) × (get_elem? inodes j ≡ some p) × Same p q)
    → Tidy (modify inodes' i ref_down) refs
unref_from inodes inodes' refs i t from =
    less_Tidy inodes (modify inodes' i ref_down) refs i t (λ j y e.
      let (x, at, h) = modify_at inodes' i ref_down j y e in
      let (p, at', same) = from j x at in
      let (d, n, r) = unref_at i j refs p x y h same (t.counts j p at') (t.few j) in
      (p, at', d, n, r))
  where
    unref_at :
        (i j : ℕ) (refs : ℕ → ℕ) (p x y : Inode)
        → y ≡ (if j == i then ref_down x else x)
        → Same p x
        → p.ref ≡ one_more i refs j
        → one_more i refs j < 2 ^ 31
        → (y.dev ≡ p.dev) × (y.inum ≡ p.inum) × (y.ref ≡ refs j)
    unref_at i j refs p x y h (d, n, r) c b = elim (Bool-cases (j == i)) [
      | inl e ↦
          let e' : (i == j) ≡ true = ground arith in
          let h' : y ≡ ref_down x = h ∙ rw e refl in
          let f = ap (λ q. q.ref) h' in
          (ap (λ q. q.dev) h' ∙ d, ap (λ q. q.inum) h' ∙ n, ground arith)
      | inr e ↦
          let e' : (i == j) ≡ false = ground arith in
          let h' : y ≡ x = h ∙ rw e refl in
          let f = ap (λ q. q.ref) h' in
          (ap (λ q. q.dev) h' ∙ d, ap (λ q. q.inum) h' ∙ n, ground arith)
    ]

-- What iput comes to: it panics only where it is to free the inode.
unfoldable pub Puts : ℕ → List Inode → (ℕ → ℕ) → Option Cache → Type 0
Puts i inodes refs none =
    (ip : Inode) × (get_elem? inodes i ≡ some ip)
    × (refs i ≡ 0)
    × (ip.valid ≡ true)
    × (ip.nlink ≡ 0)
Puts i inodes refs (some c') = Tidy c'.inodes refs

pub set_from :
    (inodes : List Inode) (i : ℕ) (ip v : Inode)
    → get_elem? inodes i ≡ some ip
    → Same ip v
    → (j : ℕ) (q : Inode) → get_elem? (set inodes i v) j ≡ some q
    → (p : Inode) × (get_elem? inodes j ≡ some p) × Same p q
set_from inodes i ip v at s j q e = elim (ℕ_discrete i j) [
  | no h ↦ (q, sym (get_elem?-set_ne inodes v h) ∙ e, (refl, refl, refl))
  | yes h ↦
      let found = get_elem?-set_self inodes i v (inside inodes i ip at) in
      let x : v ≡ q =
        some_inj (sym found ∙ subst (λ k. get_elem? (set inodes i v) k ≡ some q) (sym h) e) in
      (ip, ap (get_elem? inodes) (sym h) ∙ at, subst (Same ip) x s)
]
  where
    inside :
        (inodes : List Inode) (i : ℕ) (ip : Inode)
        → get_elem? inodes i ≡ some ip
        → i < length inodes
    inside [] i ip at = absurd (none≢some at)
    inside (x ∷ xs) zero ip at = omega arith
    inside (x ∷ xs) (suc i) ip at = let r = inside xs i ip at in omega arith

free_Puts :
    (i : ℕ) (c : Cache) (refs : ℕ → ℕ) (ip : Inode)
    → Tidy c.inodes (one_more i refs)
    → get_elem? c.inodes i ≡ some ip
    → ip.ref == 1 && ip.valid && ip.nlink == 0 ≡ true
    → Puts i c.inodes refs (free_inode i c ip >>= λ c'. some (unref i c'))
unfolding free_inode Puts unref
free_Puts i c refs ip t at e =
    let count = t.counts i ip at in
    let z : refs i ≡ 0 = ground arith in
    let v : ip.valid ≡ true = ground arith in
    let l : ip.nlink ≡ 0 = ground arith in
    let busy : Inode = record ip { busy = true } in
    elim (Bool-cases ip.busy) [
      | inl b ↦ rw b (ip, at, z, v, l)
      | inr b ↦ elim (Option-cases (itrunc busy c.disk)) [
        | inl n ↦ rw (b, n) (ip, at, z, v, l)
        | inr ((ip1, d1), n) ↦
            let gone : Inode = record ip1 { type = 0; busy = false; valid = false } in
            let same = itrunc-Kept busy c.disk ip1 d1 n in
            rw (b, n)
              (unref_from c.inodes (set c.inodes i gone) refs i t
                (set_from c.inodes i ip gone at same))
      ]
    ]

put_inode-Puts :
    (i : ℕ) (c : Cache) (refs : ℕ → ℕ) (ip : Inode)
    → Tidy c.inodes (one_more i refs)
    → get_elem? c.inodes i ≡ some ip
    → Puts i c.inodes refs (put_inode i c ip)
unfolding put_inode Puts unref free_inode
put_inode-Puts i c refs ip t at = elim (Bool-cases (ip.ref == 1 && ip.valid && ip.nlink == 0)) [
  | inr e ↦ rw e (unref_from c.inodes c.inodes refs i t (λ j q e'. (q, e', (refl, refl, refl))))
  | inl e ↦ rw e (free_Puts i c refs ip t at e)
]

-- Where the counts of the cache are right, one of the references is to inode i, and no inode has two
-- entries, iput leaves such a cache with that reference less. It panics only where it is to free the
-- inode, because that was the last reference and no directory names it any more.
pub iput-Puts :
    (i : ℕ) (c : Cache) (refs : ℕ → ℕ) (ip : Inode)
    → Tidy c.inodes (one_more i refs)
    → get_elem? c.inodes i ≡ some ip
    → Puts i c.inodes refs (iput i c)
unfolding iput Puts
iput-Puts i c refs ip t at = rw at (put_inode-Puts i c refs ip t at)
