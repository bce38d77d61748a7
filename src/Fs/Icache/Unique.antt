-- ===== src/Fs/Icache/Unique.antt =====
-- One entry of the cache for an inode, and reference counts that are right.
use os.Prelude.{
  ℕ, zero, suc, ◌+◌, ◌^◌, ◌<◌, ◌≡◌, ◌≢◌, refl, sym, ap, ◌∙◌, arith, true, false, List, [], ◌∷◌,
  Option, none, some, ◌==◌, if◌then◌else◌, get_elem?, modify, Bool-cases, inl, inr, ◌⊎◌, some_inj,
  none≢some, get_elem?-modify_ne, get_elem?-modify_self, ==_of_eq, ==_of_ne,
}
use mathlib.Core.Path.{subst}
use native.Mathlib.Decide.{ℕ_discrete}
use os.Fs.Inode.{Inode}
use os.Fs.Icache.{
  ref_up, is_inode, Search, cached, vacant, full, remember, find_inode, recycle, take_inode, iget,
}

-- Each count is the number of references, and an inode that is referenced has one entry.
pub record Tidy (inodes : List Inode) (refs : ℕ → ℕ) : Type 0 where
  pub counts : (i : ℕ) (ip : Inode) → get_elem? inodes i ≡ some ip → ip.ref ≡ refs i
  pub few : (i : ℕ) → refs i < 2 ^ 31
  pub once :
      (i j : ℕ) (p q : Inode)
      → get_elem? inodes i ≡ some p
      → get_elem? inodes j ≡ some q
      → 0 < refs i
      → 0 < refs j
      → p.dev ≡ q.dev
      → p.inum ≡ q.inum
      → i ≡ j

-- What the search says of the entries from place i on, and of the empty slot e from before.
Finds : ℕ → ℕ → List Inode → ℕ → Option ℕ → Search → Type 0
Finds dev inum inodes i empty (cached k) =
    (j : ℕ) × (ip : Inode) × (k ≡ i + j)
    × (get_elem? inodes j ≡ some ip)
    × (is_inode dev inum ip ≡ true)
Finds dev inum inodes i empty (vacant k) =
    ((j : ℕ) (ip : Inode) → get_elem? inodes j ≡ some ip → is_inode dev inum ip ≡ false)
    × ((empty ≡ some k)
        ⊎ ((j : ℕ) × (ip : Inode) × (k ≡ i + j) × (get_elem? inodes j ≡ some ip) × (ip.ref ≡ 0)))
Finds dev inum inodes i empty full =
    (empty ≡ none)
    × ((j : ℕ) (ip : Inode) → get_elem? inodes j ≡ some ip → ip.ref ≢ 0)
    × ((j : ℕ) (ip : Inode) → get_elem? inodes j ≡ some ip → is_inode dev inum ip ≡ false)

Finds-later :
    (dev inum : ℕ) (ip : Inode) (rest : List Inode) (i : ℕ) (empty : Option ℕ) (s : Search)
    → is_inode dev inum ip ≡ false
    → Finds dev inum rest (i + 1) (remember empty i ip) s
    → Finds dev inum (ip ∷ rest) i empty s
unfolding Finds
Finds-later dev inum ip rest i empty (cached k) n (j, q, e, at, t) = (suc j, q, omega arith, at, t)
Finds-later dev inum ip rest i empty (vacant k) n (absent, w) =
    ((λ j q e. none_of dev inum ip rest n absent j q e), where_empty ip rest i empty k w)
  where
    none_of :
        (dev inum : ℕ) (ip : Inode) (rest : List Inode)
        → is_inode dev inum ip ≡ false
        → ((j : ℕ) (q : Inode) → get_elem? rest j ≡ some q → is_inode dev inum q ≡ false)
        → (j : ℕ) (q : Inode) → get_elem? (ip ∷ rest) j ≡ some q
        → is_inode dev inum q ≡ false
    none_of dev inum ip rest n absent zero q e = rw (← some_inj e) n
    none_of dev inum ip rest n absent (suc j) q e = absent j q e

    where_empty :
        (ip : Inode) (rest : List Inode) (i : ℕ) (empty : Option ℕ) (k : ℕ)
        → (remember empty i ip ≡ some k)
          ⊎ ((j : ℕ) × (q : Inode) × (k ≡ i + 1 + j) × (get_elem? rest j ≡ some q) × (q.ref ≡ 0))
        → (empty ≡ some k)
          ⊎ ((j : ℕ) × (q : Inode) × (k ≡ i + j) × (get_elem? (ip ∷ rest) j ≡ some q) × (q.ref ≡ 0))
    where_empty ip rest i empty k (inr (j, q, e, at, z)) = inr (suc j, q, omega arith, at, z)
    where_empty ip rest i (some f) k (inl h) = inl h
    where_empty ip rest i none k (inl h) = elim (Bool-cases (ip.ref == 0)) [
      | inl e ↦
          let h' : some i ≡ some k = subst (λ b. (if b then some i else none) ≡ some k) e h in
          inr (0, ip, sym (some_inj h') ∙ omega arith, refl, ground arith)
      | inr e ↦ absurd (none≢some (subst (λ b. (if b then some i else none) ≡ some k) e h))
    ]
Finds-later dev inum ip rest i (some f) full n (e, used, absent) = absurd (none≢some (sym e))
Finds-later dev inum ip rest i none full n (e, used, absent) =
    let own : ip.ref ≢ 0 = λ z. absurd (
      none≢some (sym (subst (λ b. (if b then some i else none) ≡ none) (==_of_eq ip.ref 0 z) e))) in
    (refl, at_all own used, at_all n absent)
  where
    at_all :
        {P : Inode → Type 0}
        → P ip
        → ((j : ℕ) (q : Inode) → get_elem? rest j ≡ some q → P q)
        → (j : ℕ) (q : Inode) → get_elem? (ip ∷ rest) j ≡ some q
        → P q
    at_all {P = P} h t zero q e = subst P (some_inj e) h
    at_all h t (suc j) q e = t j q e

find_inode-Finds :
    (dev inum : ℕ) (inodes : List Inode) (i : ℕ) (empty : Option ℕ)
    → Finds dev inum inodes i empty (find_inode dev inum inodes i empty)
unfolding find_inode Finds
find_inode-Finds dev inum [] i none =
    (refl, (λ j q e. absurd (none≢some e)), (λ j q e. absurd (none≢some e)))
find_inode-Finds dev inum [] i (some k) = ((λ j q e. absurd (none≢some e)), inl refl)
find_inode-Finds dev inum (ip ∷ rest) i empty = elim (Bool-cases (is_inode dev inum ip)) [
  | inl e ↦ rw e (0, ip, omega arith, refl, e)
  | inr e ↦ rw e (
      Finds-later dev inum ip rest i empty (find_inode dev inum rest (i + 1) (remember empty i ip))
        e (find_inode-Finds dev inum rest (i + 1) (remember empty i ip)))
]

-- One reference more to inode k.
abbrev pub one_more : ℕ → (ℕ → ℕ) → ℕ → ℕ
one_more k refs i = if k == i then refs i + 1 else refs i

-- How iget makes an entry one for the inode: it was that already, and gets one reference more; or
-- nobody used it, and none was for the inode: then it is reset, with one reference.
abbrev pub Served : ℕ → ℕ → List Inode → (ℕ → ℕ) → ℕ → Inode → Inode → Type 0
Served dev inum inodes refs i old new =
    ((0 < refs i) × (old.dev ≡ dev) × (old.inum ≡ inum) × (new ≡ record old { ref = refs i + 1 }))
    ⊎ ((refs i ≡ 0)
        × ((j : ℕ) (q : Inode) → get_elem? inodes j ≡ some q → is_inode dev inum q ≡ false)
        × (new ≡ record old { dev = dev; inum = inum; ref = 1; busy = false; valid = false }))

-- What iget answers: a panic where every entry is referenced, and none is for the inode; or the
-- entry for it, with one reference more, and all others as they were.
unfoldable pub Gets : ℕ → ℕ → List Inode → (ℕ → ℕ) → Option (ℕ × List Inode) → Type 0
Gets dev inum inodes refs none =
    (j : ℕ) (q : Inode) → get_elem? inodes j ≡ some q → (0 < refs j) × (is_inode dev inum q ≡ false)
Gets dev inum inodes refs (some (i, inodes')) =
    Tidy inodes' (one_more i refs)
    × ((old : Inode) × (new : Inode) × (get_elem? inodes i ≡ some old)
        × (get_elem? inodes' i ≡ some new)
        × Served dev inum inodes refs i old new)
    × ((j : ℕ) → i ≢ j → get_elem? inodes' j ≡ get_elem? inodes j)

changed_self :
    (inodes : List Inode) (i j : ℕ) (f : Inode → Inode) (ip q : Inode)
    → get_elem? inodes i ≡ some ip
    → i ≡ j
    → get_elem? (modify inodes i f) j ≡ some q
    → q ≡ f ip
changed_self inodes i j f ip q at h e =
    let e' = subst (λ k. get_elem? (modify inodes i f) k ≡ some q) (sym h) e in
    some_inj (sym e' ∙ get_elem?-modify_self inodes i f ip at)

changed_other :
    (inodes : List Inode) (i j : ℕ) (f : Inode → Inode) (q : Inode)
    → i ≢ j
    → get_elem? (modify inodes i f) j ≡ some q
    → get_elem? inodes j ≡ some q
changed_other inodes i j f q h e = sym (get_elem?-modify_ne inodes i j f h) ∙ e

one_more_other : (i j : ℕ) (refs : ℕ → ℕ) → i ≢ j → one_more i refs j ≡ refs j
one_more_other i j refs h = rw (==_of_ne i j h) refl

-- A change of one entry that leaves the table tidy.
pub change_Tidy :
    (inodes : List Inode) (refs : ℕ → ℕ) (i : ℕ) (f : Inode → Inode) (ip : Inode)
    → Tidy inodes refs
    → refs i + 1 < 2 ^ 31
    → get_elem? inodes i ≡ some ip
    → (f ip).ref ≡ refs i + 1
    → ((j : ℕ) (q : Inode)
        → get_elem? inodes j ≡ some q
        → 0 < refs j
        → q.dev ≡ (f ip).dev
        → q.inum ≡ (f ip).inum
        → i ≡ j)
    → Tidy (modify inodes i f) (one_more i refs)
change_Tidy inodes refs i f ip t few at count other = record {
  counts = λ j q e. elim (ℕ_discrete i j) [
    | yes h ↦
        let x = changed_self inodes i j f ip q at h e in
        rw (x, ==_of_eq i j h) (count ∙ ap (λ k. refs k + 1) h)
    | no h ↦ rw (one_more_other i j refs h) (t.counts j q (changed_other inodes i j f q h e))
  ];
  few = λ j.
      let b = t.few j in
      elim (ℕ_discrete i j) [ yes h ↦ let r = ap refs h in ground arith | no h ↦ ground arith ];
  once = λ j k p q e e' l l' d n. elim (ℕ_discrete i j) [
    | yes h ↦ elim (ℕ_discrete i k) [
      | yes h' ↦ sym h ∙ h'
      | no h' ↦
          let x = changed_self inodes i j f ip p at h e in
          let l2 = subst (λ m. 0 < m) (one_more_other i k refs h') l' in
          sym h
          ∙ other k q (changed_other inodes i k f q h' e') l2 (sym d ∙ ap (λ r. r.dev) x)
              (sym n ∙ ap (λ r. r.inum) x)
    ]
    | no h ↦ elim (ℕ_discrete i k) [
      | yes h' ↦
          let x = changed_self inodes i k f ip q at h' e' in
          let l2 = subst (λ m. 0 < m) (one_more_other i j refs h) l in
          sym (
            other j p (changed_other inodes i j f p h e) l2 (d ∙ ap (λ r. r.dev) x)
              (n ∙ ap (λ r. r.inum) x))
          ∙ h'
      | no h' ↦
          t.once j k p q (changed_other inodes i j f p h e) (changed_other inodes i k f q h' e')
            (subst (λ m. 0 < m) (one_more_other i j refs h) l)
            (subst (λ m. 0 < m) (one_more_other i k refs h') l') d n
    ]
  ];
}

take_inode-Gets :
    (dev inum : ℕ) (inodes : List Inode) (refs : ℕ → ℕ) (s : Search)
    → Tidy inodes refs
    → ((i : ℕ) → refs i + 1 < 2 ^ 31)
    → Finds dev inum inodes 0 none s
    → Gets dev inum inodes refs (take_inode dev inum inodes s)
unfolding take_inode Gets Finds
take_inode-Gets dev inum inodes refs (cached i) t few (j, ip, e, at', h) =
    let at : get_elem? inodes i ≡ some ip = ap (get_elem? inodes) (omega arith) ∙ at' in
    let c = t.counts i ip at in
    let b = few i in
    let d : ip.dev ≡ dev = ground arith in
    let n : ip.inum ≡ inum = ground arith in
    let r : 0 < refs i = ground arith in
    (
      (change_Tidy inodes refs i ref_up ip t b at (omega arith)
          (λ k q e' l d' n'. t.once i k ip q at e' r l (sym d') (sym n'))),
      (
        ip,
        ref_up ip,
        at,
        get_elem?-modify_self inodes i ref_up ip at,
        inl (r, d, n, ap (λ m. record ip { ref = m }) (omega arith)),
      ),
      (λ k h'. get_elem?-modify_ne inodes i k ref_up h'),
    )
take_inode-Gets dev inum inodes refs (vacant i) t few (absent, inl e) = absurd (none≢some e)
take_inode-Gets dev inum inodes refs (vacant i) t few (absent, inr (j, ip, e, at', z)) =
    let at : get_elem? inodes i ≡ some ip = ap (get_elem? inodes) (omega arith) ∙ at' in
    let c = t.counts i ip at in
    (
      (change_Tidy inodes refs i (recycle dev inum) ip t (few i) at (omega arith) (λ k q e' l d' n'.
          let a = absent k q e' in
          let c' = t.counts k q e' in
          let b = t.few k in
          let d2 = ==_of_eq q.dev dev d' in
          let n2 = ==_of_eq q.inum inum n' in absurd (ground arith))),
      (
        ip,
        recycle dev inum ip,
        at,
        get_elem?-modify_self inodes i (recycle dev inum) ip at,
        inr (sym c ∙ z, absent, refl),
      ),
      (λ k h'. get_elem?-modify_ne inodes i k (recycle dev inum) h'),
    )
take_inode-Gets dev inum inodes refs full t few (e, used, absent) =
    λ j q e'. let c = t.counts j q e' in let u = used j q e' in (omega arith, absent j q e')

-- Where the counts of the cache are right and below 2 ^ 31 - 1, and no inode has two entries, iget
-- answers an entry for the inode that it was asked for: the one in use, or else one that nobody uses,
-- which it resets. It counts the new reference, leaves all other entries alone, and again no inode
-- has two. It panics only where all entries are in use, by other inodes.
pub iget-Gets :
    (dev inum : ℕ) (inodes : List Inode) (refs : ℕ → ℕ)
    → Tidy inodes refs
    → ((i : ℕ) → refs i + 1 < 2 ^ 31)
    → Gets dev inum inodes refs (iget dev inum inodes)
unfolding iget
iget-Gets dev inum inodes refs t few =
    take_inode-Gets dev inum inodes refs (find_inode dev inum inodes 0 none) t few
      (find_inode-Finds dev inum inodes 0 none)
