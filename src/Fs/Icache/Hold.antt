-- ===== src/Fs/Icache/Hold.antt =====
-- The operations of the cache, by what they do to its references.
use os.Prelude.{
  ℕ, ◌+◌, ◌^◌, ◌<◌, ◌≡◌, refl, sym, ◌∙◌, arith, Bool, true, false, not, ◌||◌, List, Option, none,
  some, ◌==◌, if◌then◌else◌, get_elem?, set, Bool-cases, Option-cases, inl, inr, ◌>>=◌,
}
use os.Fs.Inode.{Inode, load}
use os.Fs.Content.Trunc.{Same}
use os.Fs.Icache.{
  Cache, is_referenced, ref_up, Lock, panicked, asleep, locked, iget, idup, ilock, lock_inode,
  read_inode, iunlock, unlock_inode, iput, iunlockput,
}
use os.Fs.Icache.Unique.{Tidy, one_more, Gets, iget-Gets, change_Tidy}
use os.Fs.Icache.Put.{Puts, iput-Puts, set_from}

-- A table with the same numbers and counts.
pub Same-Tidy :
    (inodes inodes' : List Inode) (refs : ℕ → ℕ)
    → Tidy inodes refs
    → ((j : ℕ) (q : Inode)
        → get_elem? inodes' j ≡ some q
        → (p : Inode) × (get_elem? inodes j ≡ some p) × Same p q)
    → Tidy inodes' refs
Same-Tidy inodes inodes' refs t from = record {
  counts = λ j q e. let (p, at, s) = from j q e in let (_, _, r) = s in r ∙ t.counts j p at;
  few = t.few;
  once = λ j k p q e e' l l' d n.
      let (x, at, s) = from j p e in
      let (y, at', s') = from k q e' in
      let (dx, nx, _) = s in
      let (dy, ny, _) = s' in t.once j k x y at at' l l' (sym dx ∙ d ∙ dy) (sym nx ∙ n ∙ ny);
}

pub set-Tidy :
    (inodes : List Inode) (refs : ℕ → ℕ) (i : ℕ) (ip v : Inode)
    → Tidy inodes refs
    → get_elem? inodes i ≡ some ip
    → Same ip v
    → Tidy (set inodes i v) refs
set-Tidy inodes refs i ip v t at s =
    Same-Tidy inodes (set inodes i v) refs t (set_from inodes i ip v at s)

-- References counted in another way.
pub recount_Tidy :
    (inodes : List Inode) (refs refs' : ℕ → ℕ)
    → Tidy inodes refs
    → ((i : ℕ) → refs' i ≡ refs i)
    → Tidy inodes refs'
recount_Tidy inodes refs refs' t e = record {
  counts = λ i q h. t.counts i q h ∙ sym (e i);
  few = λ i. rw (e i) (t.few i);
  once = λ i j p q h h' l l'. t.once i j p q h h' (rw (← e i) l) (rw (← e j) l');
}

-- The cache after ilock.
unfoldable pub Locks : (ℕ → ℕ) → Lock → Type 0
Locks refs panicked = Unit
Locks refs (asleep c) = Tidy c.inodes refs
Locks refs (locked c) = Tidy c.inodes refs

Locks-if :
    (refs : ℕ → ℕ) (b : Bool) (l l' : Lock)
    → Locks refs l
    → Locks refs l'
    → Locks refs (if b then l else l')
Locks-if refs true l l' h h' = h
Locks-if refs false l l' h h' = h'

Locks-read_inode :
    (i : ℕ) (c : Cache) (refs : ℕ → ℕ) (ip ip' : Inode)
    → Tidy c.inodes refs
    → get_elem? c.inodes i ≡ some ip
    → Same ip ip'
    → Locks refs (read_inode i c ip')
unfolding read_inode Locks
Locks-read_inode i c refs ip ip' t at s =
    let l = load ip' c.disk in
    Locks-if refs ip'.valid (locked (record c { inodes = set c.inodes i ip' }))
      (if l.type == 0 then panicked else locked (record c { inodes = set c.inodes i l }))
      (set-Tidy c.inodes refs i ip ip' t at s)
      (Locks-if refs (l.type == 0) panicked (locked (record c { inodes = set c.inodes i l })) tt
        (set-Tidy c.inodes refs i ip l t at s))

pub Locks-ilock : (i : ℕ) (c : Cache) (refs : ℕ → ℕ) → Tidy c.inodes refs → Locks refs (ilock i c)
unfolding ilock lock_inode Locks
Locks-ilock i c refs t = elim (Option-cases (get_elem? c.inodes i)) [
  | inl e ↦ rw (ilock, e) tt
  | inr (ip, e) ↦
      let busy : Inode = record ip { busy = true } in
      let sleeping : Lock =
        asleep (record c { sleepers = λ j. if i == j then c.sleepers j + 1 else c.sleepers j }) in
      rw (ilock, e)
        (Locks-if refs (not (is_referenced ip)) panicked
          (if ip.busy then sleeping else read_inode i c busy) tt
          (Locks-if refs ip.busy sleeping (read_inode i c busy) t
            (Locks-read_inode i c refs ip busy t e (refl, refl, refl))))
]

-- The cache after a call that may panic.
unfoldable pub Holds : (ℕ → ℕ) → Option Cache → Type 0
Holds refs none = Unit
Holds refs (some c) = Tidy c.inodes refs

pub Holds-iunlock :
    (i : ℕ) (c : Cache) (refs : ℕ → ℕ) → Tidy c.inodes refs → Holds refs (iunlock i c)
unfolding iunlock unlock_inode Holds
Holds-iunlock i c refs t = elim (Option-cases (get_elem? c.inodes i)) [
  | inl e ↦ rw (iunlock, e) tt
  | inr (ip, e) ↦
      let open_inode : Inode = record ip { busy = false } in
      rw (iunlock, e)
        (elim (Bool-cases (not ip.busy || not (is_referenced ip))) [
          | inl b ↦ rw b tt
          | inr b ↦ rw b (set-Tidy c.inodes refs i ip open_inode t e (refl, refl, refl))
        ])
]

Puts-Holds :
    (i : ℕ) (inodes : List Inode) (refs : ℕ → ℕ) (o : Option Cache)
    → Puts i inodes refs o
    → Holds refs o
unfolding Puts Holds
Puts-Holds i inodes refs none p = tt
Puts-Holds i inodes refs (some c) p = p

pub Holds-iput :
    (i : ℕ) (c : Cache) (refs : ℕ → ℕ) → Tidy c.inodes (one_more i refs) → Holds refs (iput i c)
unfolding iput Holds
Holds-iput i c refs t = elim (Option-cases (get_elem? c.inodes i)) [
  | inl e ↦ rw (iput, e) tt
  | inr (ip, e) ↦ Puts-Holds i c.inodes refs (iput i c) (iput-Puts i c refs ip t e)
]

pub Holds-iunlockput :
    (i : ℕ) (c : Cache) (refs : ℕ → ℕ)
    → Tidy c.inodes (one_more i refs)
    → Holds refs (iunlockput i c)
unfolding iunlockput Holds
Holds-iunlockput i c refs t = then_put (iunlock i c) (Holds-iunlock i c (one_more i refs) t)
  where
    then_put : (o : Option Cache) → Holds (one_more i refs) o → Holds refs (o >>= iput i)
    then_put none h = tt
    then_put (some c') h = Holds-iput i c' refs h

-- The cache after iget, with one reference more.
unfoldable pub Got : (ℕ → ℕ) → Option (ℕ × List Inode) → Type 0
Got refs none = Unit
Got refs (some (i, inodes)) = Tidy inodes (one_more i refs)

pub Got-iget :
    (dev inum : ℕ) (inodes : List Inode) (refs : ℕ → ℕ)
    → Tidy inodes refs
    → ((i : ℕ) → refs i + 1 < 2 ^ 31)
    → Got refs (iget dev inum inodes)
unfolding Gets Got
Got-iget dev inum inodes refs t few =
    from (iget dev inum inodes) (iget-Gets dev inum inodes refs t few)
  where
    from : (o : Option (ℕ × List Inode)) → Gets dev inum inodes refs o → Got refs o
    from none g = tt
    from (some (i, inodes')) (t, _, _) = t

pub idup-Tidy :
    (i : ℕ) (inodes : List Inode) (refs : ℕ → ℕ) (ip : Inode)
    → Tidy inodes refs
    → refs i + 1 < 2 ^ 31
    → 0 < refs i
    → get_elem? inodes i ≡ some ip
    → Tidy (idup i inodes) (one_more i refs)
unfolding idup
idup-Tidy i inodes refs ip t few held at =
    let c = t.counts i ip at in
    change_Tidy inodes refs i ref_up ip t few at (omega arith)
      (λ k q e l d n. t.once i k ip q at e held l (sym d) (sym n))
