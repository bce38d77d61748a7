-- ===== src/Fs/Names/Rounds.antt =====
-- The walk ends: the rounds that namex gives it are enough.
use os.Prelude.{
  ℕ, zero, suc, ◌≤◌, ◌<◌, ◌≡◌, refl, sym, ap, ◌∙◌, arith, Bool, false, not, ◌&&◌, List, [], ◌∷◌,
  Option, none, some, ◌==◌, if◌then◌else◌, get_elem?, length, Bool-cases, Option-cases, inl, inr,
  some_inj, none≢some,
}
use os.Fs.Inode.{Inode}
use os.Fs.Path.{slash, skip_slashes, split_elem, take_elem, skipelem, name_of}
use os.Fs.Content.{t_dir}
use os.Fs.Icache.{Cache, Lock, locked, iget, ilock, iunlock, iunlockput}
use os.Fs.Dir.{Lookup, panics, absent, found, dirlookup}
use os.Fs.Names.{
  Walk, panicked, asleep, reaches, at_end, leave, go_on, with_inode, follow, enter, walk,
}

length-skip_slashes : (path : List ℕ) → length (skip_slashes path) ≤ length path
unfolding skip_slashes
length-skip_slashes [] = omega arith
length-skip_slashes (c ∷ path) =
    let l = length-skip_slashes path in
    elim (Bool-cases (c == slash)) [ inl e ↦ rw e (omega arith) | inr e ↦ rw e (omega arith) ]

length-split_elem : (path : List ℕ) → length ((split_elem path).1) ≤ length path
unfolding split_elem
length-split_elem [] = omega arith
length-split_elem (c ∷ path) =
    let l = length-split_elem path in
    elim (Bool-cases (c == slash)) [ inl e ↦ rw e (omega arith) | inr e ↦ rw e (omega arith) ]

Head : List ℕ → Type 0
Head [] = Unit
Head (c ∷ path) = (c == slash) ≡ false

skip_slashes-Head : (path : List ℕ) → Head (skip_slashes path)
unfolding skip_slashes Head
skip_slashes-Head [] = tt
skip_slashes-Head (c ∷ path) = elim (Bool-cases (c == slash)) [
  | inl e ↦ rw e (skip_slashes-Head path)
  | inr e ↦ rw e e
]

take_elem_shorter :
    (name s path' name' : List ℕ)
    → Head s
    → take_elem name s ≡ some (path', name')
    → length path' < length s
unfolding take_elem split_elem Head
take_elem_shorter name [] path' name' h e = absurd (none≢some e)
take_elem_shorter name (c ∷ path) path' name' h e =
    let rest = (split_elem path).1 in
    let at : skip_slashes ((split_elem (c ∷ path)).1) ≡ path' = ap (λ p. p.0) (some_inj e) in
    let inner : (split_elem (c ∷ path)).1 ≡ rest = rw h refl in
    let same : length path' ≡ length (skip_slashes rest) =
      ap length (sym at) ∙ ap (λ p. length (skip_slashes p)) inner in
    let a = length-skip_slashes rest in let b = length-split_elem path in omega arith

skipelem_shorter :
    (path name path' name' : List ℕ)
    → skipelem path name ≡ some (path', name')
    → length path' < length path
unfolding skipelem
skipelem_shorter path name path' name' e =
    let l = length-skip_slashes path in
    let s = take_elem_shorter name (skip_slashes path) path' name' (skip_slashes-Head path) e in
    omega arith

-- What comes after a round enters into it only where it is called.
go_on_same :
    (f g : ℕ → Cache → Walk) (i : ℕ) (c : Cache) (o : Option (ℕ × List Inode))
    → ((next : ℕ) (c : Cache) → f next c ≡ g next c)
    → go_on f i c o ≡ go_on g i c o
unfolding go_on
go_on_same f g i c none h = refl
go_on_same f g i c (some (next, inodes)) h =
    elim (Option-cases (iunlockput i (record c { inodes = inodes }))) [
      | inl e ↦ rw (go_on, e) refl
      | inr (c', e) ↦ rw (go_on, e) (h next c')
    ]

follow_same :
    (f g : ℕ → Cache → Walk) (i : ℕ) (c : Cache) (l : Lookup)
    → ((next : ℕ) (c : Cache) → f next c ≡ g next c)
    → follow f i c l ≡ follow g i c l
unfolding follow
follow_same f g i c panics h = refl
follow_same f g i c (absent dp disk) h = refl
follow_same f g i c (found off inum dp disk) h =
    let c' = with_inode i dp disk c in go_on_same f g i c' (iget dp.dev inum c'.inodes) h

enter_same :
    (has : ℕ → Bool) (parent : Bool) (path name : List ℕ) (f g : ℕ → Cache → Walk) (i : ℕ)
    (c : Cache) (o : Option Inode)
    → ((next : ℕ) (c : Cache) → f next c ≡ g next c)
    → enter has parent path name f i c o ≡ enter has parent path name g i c o
unfolding enter
enter_same has parent path name f g i c none h = refl
enter_same has parent path name f g i c (some ip) h =
    let stop : Walk = elim (iunlock i c) [ none ↦ panicked | some c' ↦ reaches i name c' ] in
    ap
      (λ w. if not (ip.type == t_dir) then leave i c else if parent && at_end path then stop else w)
      (follow_same f g i c (dirlookup has (name_of name) ip c.disk) h)

round_same :
    (has : ℕ → Bool) (parent : Bool) (path path' name' : List ℕ) (i : ℕ) (k : Lock)
    (f g : ℕ → Cache → Walk)
    → ((next : ℕ) (c : Cache) → f next c ≡ g next c)
    → ◌≡◌ {A = Walk}
        (elim k [
          | Lock.panicked ↦ panicked
          | Lock.asleep c' ↦ asleep path i c'
          | locked c' ↦ enter has parent path' name' f i c' (get_elem? c'.inodes i)
        ])
        (elim k [
          | Lock.panicked ↦ panicked
          | Lock.asleep c' ↦ asleep path i c'
          | locked c' ↦ enter has parent path' name' g i c' (get_elem? c'.inodes i)
        ])
round_same has parent path path' name' i Lock.panicked f g h = refl
round_same has parent path path' name' i (Lock.asleep c') f g h = refl
round_same has parent path path' name' i (locked c') f g h =
    enter_same has parent path' name' f g i c' (get_elem? c'.inodes i) h

-- More rounds than the path has characters are enough: with one more the walk is the same.
pub walk_enough :
    (has : ℕ → Bool) (parent : Bool) (rounds : ℕ) (path name : List ℕ) (i : ℕ) (c : Cache)
    → length path < rounds
    → walk has parent (suc rounds) path name i c ≡ walk has parent rounds path name i c
unfolding walk
walk_enough has parent zero path name i c l = absurd (omega arith)
walk_enough has parent (suc rounds) path name i c l = elim (Option-cases (skipelem path name)) [
  | inl e ↦ rw (walk, e) refl
  | inr ((path', name'), e) ↦
      let s = skipelem_shorter path name path' name' e in
      rw (walk, e)
        (round_same has parent path path' name' i (ilock i c)
          (walk has parent (suc rounds) path' name') (walk has parent rounds path' name')
          (λ next c'. walk_enough has parent rounds path' name' next c' (omega arith)))
]
