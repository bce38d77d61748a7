-- ===== src/Fs/Names/Balance.antt =====
-- The references that a walk along a path takes and gives back.
use os.Prelude.{
  ℕ, zero, suc, ◌+◌, ◌^◌, ◌<◌, ◌≡◌, refl, arith, Bool, true, false, not, ◌&&◌, List, Option, none,
  some, ◌==◌, if◌then◌else◌, get_elem?, length, Option-cases, inl, inr,
}
use os.Fs.Inode.{Inode}
use os.Fs.Path.{skipelem, name_of}
use os.Fs.Content.{t_dir}
use os.Fs.Icache.{Cache, Lock, locked, iget, idup, ilock, iunlock, iput, iunlockput}
use os.Fs.Icache.Unique.{Tidy, one_more}
use os.Fs.Icache.Hold.{
  set-Tidy, recount_Tidy, Locks, Locks-ilock, Holds, Holds-iunlock, Holds-iput, Holds-iunlockput,
  Got, Got-iget, idup-Tidy,
}
use os.Fs.Dir.{Lookup, panics, absent, found, dirlookup}
use os.Fs.Dir.Keep.{Looked, Looked-dirlookup}
use os.Fs.Names.{
  Walk, panicked, asleep, nowhere, reaches, at_end, leave, go_on, with_inode, follow, enter, finish,
  walk, is_absolute, start, namex, rootdev, rootino,
}

-- Beside the references that there were, a walk holds one to the inode that it has come to, and none
-- when it answers 0.
pub Balanced : (ℕ → ℕ) → Walk → Type 0
Balanced refs panicked = Unit
Balanced refs (asleep path i c) = Tidy c.inodes (one_more i refs)
Balanced refs (nowhere c) = Tidy c.inodes refs
Balanced refs (reaches i name c) = Tidy c.inodes (one_more i refs)

module _ (refs : ℕ → ℕ) (few : (i : ℕ) → refs i + 2 < 2 ^ 31) where
  -- A call that may panic, and what follows it.
  Balanced-after :
      (held : ℕ → ℕ) (o : Option Cache) (f : Cache → Walk)
      → Holds held o
      → ((c : Cache) → Tidy c.inodes held → Balanced refs (f c))
      → Balanced refs (elim o [ none ↦ panicked | some c' ↦ f c' ])
  unfolding Holds Balanced
  Balanced-after held none f h g = tt
  Balanced-after held (some c) f h g = g c h

  Balanced-leave : (i : ℕ) (c : Cache) → Tidy c.inodes (one_more i refs) → Balanced refs (leave i c)
  unfolding leave Balanced
  Balanced-leave i c t =
      Balanced-after refs (iunlockput i c) nowhere (Holds-iunlockput i c refs t) (λ c' t'. t')

  abbrev Later : (ℕ → Cache → Walk) → Type 0
  Later later =
      (next : ℕ) (c : Cache) → Tidy c.inodes (one_more next refs) → Balanced refs (later next c)

  Balanced-go_on :
      (later : ℕ → Cache → Walk) (i : ℕ) (c : Cache) (o : Option (ℕ × List Inode))
      → Later later
      → Got (one_more i refs) o
      → Balanced refs (go_on later i c o)
  unfolding go_on Got Balanced
  Balanced-go_on later i c none l g = tt
  Balanced-go_on later i c (some (next, inodes)) l g =
      let c1 : Cache = record c { inodes = inodes } in
      let t =
        recount_Tidy inodes (one_more next (one_more i refs)) (one_more i (one_more next refs)) g
          (λ k. ground arith) in
      Balanced-after (one_more next refs) (iunlockput i c1) (later next)
        (Holds-iunlockput i c1 (one_more next refs) t) (l next)

  Balanced-follow :
      (later : ℕ → Cache → Walk) (i : ℕ) (c : Cache) (ip : Inode) (l : Lookup)
      → Later later
      → Tidy c.inodes (one_more i refs)
      → get_elem? c.inodes i ≡ some ip
      → Looked ip l
      → Balanced refs (follow later i c l)
  unfolding follow Looked Balanced
  Balanced-follow later i c ip panics l t at s = tt
  Balanced-follow later i c ip (absent dp disk) l t at s =
      Balanced-leave i (with_inode i dp disk c) (set-Tidy c.inodes (one_more i refs) i ip dp t at s)
  Balanced-follow later i c ip (found off inum dp disk) l t at s =
      let c' = with_inode i dp disk c in
      let t' = set-Tidy c.inodes (one_more i refs) i ip dp t at s in
      Balanced-go_on later i c' (iget dp.dev inum c'.inodes) l
        (Got-iget dp.dev inum c'.inodes (one_more i refs) t' (λ k. let f = few k in ground arith))

  Balanced-if :
      (b : Bool) (w w' : Walk)
      → Balanced refs w
      → Balanced refs w'
      → Balanced refs (if b then w else w')
  Balanced-if true w w' h h' = h
  Balanced-if false w w' h h' = h'

  Balanced-enter :
      (has : ℕ → Bool) (parent : Bool) (path name : List ℕ) (later : ℕ → Cache → Walk) (i : ℕ)
      (c : Cache) (o : Option Inode)
      → Later later
      → Tidy c.inodes (one_more i refs)
      → get_elem? c.inodes i ≡ o
      → Balanced refs (enter has parent path name later i c o)
  unfolding enter Balanced Holds
  Balanced-enter has parent path name later i c none l t at = tt
  Balanced-enter has parent path name later i c (some ip) l t at =
      let down = follow later i c (dirlookup has (name_of name) ip c.disk) in
      let stop : Walk = elim (iunlock i c) [ none ↦ panicked | some c' ↦ reaches i name c' ] in
      Balanced-if (not (ip.type == t_dir)) (leave i c)
        (if parent && at_end path then stop else down) (Balanced-leave i c t)
        (Balanced-if (parent && at_end path) stop down
          (Balanced-after (one_more i refs) (iunlock i c) (λ c'. reaches i name c')
            (Holds-iunlock i c (one_more i refs) t) (λ c' t'. t'))
          (Balanced-follow later i c ip (dirlookup has (name_of name) ip c.disk) l t at
            (Looked-dirlookup has (name_of name) ip c.disk)))

  Balanced-finish :
      (parent : Bool) (name : List ℕ) (i : ℕ) (c : Cache)
      → Tidy c.inodes (one_more i refs)
      → Balanced refs (finish parent name i c)
  unfolding finish Balanced
  Balanced-finish true name i c t =
      Balanced-after refs (iput i c) nowhere (Holds-iput i c refs t) (λ c' t'. t')
  Balanced-finish false name i c t = t

  Balanced-walk :
      (has : ℕ → Bool) (parent : Bool) (rounds : ℕ) (path name : List ℕ) (i : ℕ) (c : Cache)
      → Tidy c.inodes (one_more i refs)
      → Balanced refs (walk has parent rounds path name i c)
  unfolding walk Balanced Locks
  Balanced-walk has parent zero path name i c t = tt
  Balanced-walk has parent (suc rounds) path name i c t = elim (Option-cases (skipelem path name)) [
    | inl e ↦ rw (walk, e) (Balanced-finish parent name i c t)
    | inr ((path', name'), e) ↦
        let later = walk has parent rounds path' name' in
        rw (walk, e)
          (locks (ilock i c) path path' name' later i
            (λ next c' t'. Balanced-walk has parent rounds path' name' next c' t')
            (Locks-ilock i c (one_more i refs) t))
  ]
    where
      locks :
          (l : Lock) (path path' name' : List ℕ) (later : ℕ → Cache → Walk) (i : ℕ)
          → Later later
          → Locks (one_more i refs) l
          → Balanced refs (elim l [
            | Lock.panicked ↦ panicked
            | Lock.asleep c' ↦ asleep path i c'
            | locked c' ↦ enter has parent path' name' later i c' (get_elem? c'.inodes i)
          ])
      locks Lock.panicked path path' name' later i l t = tt
      locks (Lock.asleep c') path path' name' later i l t = t
      locks (locked c') path path' name' later i l t =
          Balanced-enter has parent path' name' later i c' (get_elem? c'.inodes i) l t refl

  Balanced-start :
      (has : ℕ → Bool) (parent : Bool) (path name : List ℕ) (c : Cache)
      (o : Option (ℕ × List Inode))
      → Got refs o
      → Balanced refs (start has parent path name c o)
  unfolding Got Balanced
  Balanced-start has parent path name c none g = tt
  Balanced-start has parent path name c (some (i, inodes)) g =
      Balanced-walk has parent (length path + 1) path name i (record c { inodes = inodes }) g

  -- Where the counts of the cache are right and small, and proc->cwd is a reference to an entry, namex
  -- balances the references that it takes: when it answers an inode, with or without the parent, it
  -- holds one to it and no other; when it answers 0, none, on each of its error paths; and when it
  -- sleeps, one to the inode that it waits for. No inode has two entries then.
  pub Balanced-namex :
      (has : ℕ → Bool) (parent : Bool) (cwd : ℕ) (path name : List ℕ) (c : Cache) (ip : Inode)
      → Tidy c.inodes refs
      → get_elem? c.inodes cwd ≡ some ip
      → 0 < refs cwd
      → Balanced refs (namex has parent cwd path name c)
  unfolding namex Got
  Balanced-namex has parent cwd path name c ip t at held =
      Balanced-if (is_absolute path) (start has parent path name c (iget rootdev rootino c.inodes))
        (start has parent path name c (some (cwd, idup cwd c.inodes)))
        (Balanced-start has parent path name c (iget rootdev rootino c.inodes)
          (Got-iget rootdev rootino c.inodes refs t (λ k. let f = few k in omega arith)))
        (Balanced-start has parent path name c (some (cwd, idup cwd c.inodes))
          (idup-Tidy cwd c.inodes refs ip t (let f = few cwd in omega arith) held at))
