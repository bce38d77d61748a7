-- ===== src/Fs/Dir/Entry.antt =====
-- The empty entry that dirlink finds, the entry that it writes, and which entry a lookup can find.
use os.Prelude.{
  ℕ, zero, suc, ◌+◌, ◌*◌, ◌%◌, ◌≤◌, ◌<◌, ◌≡◌, ◌≢◌, refl, sym, ap, ◌∙◌, arith, Bool, true, List, [],
  ◌∷◌, some, ◌==◌, ltb, Bool-cases, inl, inr, length,
}
use native.Mathlib.Decide.{dec_lt, ℕ_discrete}
use os.Fs.Disk.{Disk}
use os.Fs.Inode.{Inode}
use os.Fs.Path.{dirsiz}
use os.Fs.Content.{Outcome, panicked, failed, device, answers}
use os.Fs.Dir.{
  sizeof_dirent, dirent_inum, dirent_name, same_name, namecmp, Lookup, panics, absent, found,
  free_at, find_free, copy_name, new_dirent,
}
use os.Fs.Dir.Search.{Solid, dirent, Misses, Looks, read_dirent_lem}

pub same_name-copy_name : (n : ℕ) (s : List ℕ) → same_name n s (copy_name n s) ≡ true
unfolding same_name copy_name
same_name-copy_name zero s = refl
same_name-copy_name (suc n) [] = refl
same_name-copy_name (suc n) (c ∷ s) = let rest = same_name-copy_name n s in ground arith

length-copy_name : (n : ℕ) (s : List ℕ) → length (copy_name n s) ≡ n
unfolding copy_name
length-copy_name zero s = refl
length-copy_name (suc n) [] = ap suc (length-copy_name n [])
length-copy_name (suc n) (c ∷ s) = ap suc (length-copy_name n s)

pub length-new_dirent : (name : List ℕ) (inum : ℕ) → length (new_dirent name inum) ≡ sizeof_dirent
length-new_dirent name inum = let e = length-copy_name dirsiz name in omega arith

-- The search for an empty entry from one on ends at the first, or at the end, and changes nothing.
unfoldable pub Frees : ℕ → Inode → Disk → Outcome ℕ → Type 0
Frees from dp disk (answers o dp' disk') =
    (dp' ≡ dp)
    × (disk' ≡ disk)
    × (o ≤ dp.size)
    × (o % sizeof_dirent ≡ 0)
    × (o < dp.size → dirent_inum (dirent dp disk o) ≡ 0)
    × ((p : ℕ) → from ≤ p → p < o → p % sizeof_dirent ≡ 0 → dirent_inum (dirent dp disk p) ≢ 0)
Frees from dp disk o = ⊥

Frees-later :
    (off : ℕ) (dp : Inode) (disk : Disk) (f : Outcome ℕ)
    → off % sizeof_dirent ≡ 0
    → dirent_inum (dirent dp disk off) ≢ 0
    → Frees (off + sizeof_dirent) dp disk f
    → Frees off dp disk f
unfolding Frees
Frees-later off dp disk panicked a u h = h
Frees-later off dp disk failed a u h = h
Frees-later off dp disk (device d) a u h = h
Frees-later off dp disk (answers o dp' disk') a u (q, r, l, b, free, used) = (
  q,
  r,
  l,
  b,
  free,
  λ p g k c. elim (ℕ_discrete off p) [
    | yes e ↦ λ z. u (ap (λ x. dirent_inum (dirent dp disk x)) e ∙ z)
    | no ne ↦ used p (omega arith) k c
  ],
)

free_at-Frees :
    (dp : Inode) (disk : Disk) (off : ℕ) (later : Inode → Disk → Outcome ℕ)
    → off % sizeof_dirent ≡ 0
    → off < dp.size
    → Frees (off + sizeof_dirent) dp disk (later dp disk)
    → Frees off dp disk (free_at off later (some (dirent dp disk off, dp, disk)))
unfolding free_at Frees
free_at-Frees dp disk off later a l h = elim (Bool-cases (dirent_inum (dirent dp disk off) == 0)) [
  | inl z ↦ rw z (refl, refl, omega arith, a, (λ q. ground arith), λ p g k. absurd (omega arith))
  | inr z ↦ rw z (Frees-later off dp disk (later dp disk) a (ground arith) h)
]

pub find_free-Frees :
    (n size : ℕ) (has : ℕ → Bool) (rounds off : ℕ) (dp : Inode) (disk : Disk)
    → Solid n size dp disk
    → off % sizeof_dirent ≡ 0
    → off ≤ dp.size
    → dp.size ≤ off + sizeof_dirent * rounds
    → Frees off dp disk (find_free has rounds off dp disk)
unfolding find_free Frees
find_free-Frees n size has zero off dp disk s a b l =
    (refl, refl, b, a, (λ q. absurd (omega arith)), λ p g k. absurd (omega arith))
find_free-Frees n size has (suc rounds) off dp disk s a b l = elim (Bool-cases (ltb off dp.size)) [
  | inr e ↦
      rw (find_free, e)
        (refl, refl, b, a, (λ q. absurd (ground arith)), λ p g k. absurd (omega arith))
  | inl e ↦
      let w = s.whole in
      let lt : off < dp.size = ground arith in
      rw (find_free, e, read_dirent_lem n size has off dp disk s (omega arith))
        (free_at-Frees dp disk off (find_free has rounds (off + sizeof_dirent)) a lt (
          find_free-Frees n size has rounds (off + sizeof_dirent) dp disk s (omega arith)
            (omega arith) (omega arith)))
]

not_missed :
    (name de : List ℕ) (inum : ℕ)
    → dirent_inum de ≡ inum
    → inum ≢ 0
    → namecmp name (dirent_name de) ≡ true
    → Misses name de
    → ⊥
not_missed name de inum e u m (inl z) = u (sym e ∙ z)
not_missed name de inum e u m (inr z) = absurd (ground arith)

-- The only entry that a lookup can find.
pub only_found :
    (name : List ℕ) (dp : Inode) (disk : Disk) (o inum : ℕ) (l : Lookup)
    → o < dp.size
    → o % sizeof_dirent ≡ 0
    → dirent_inum (dirent dp disk o) ≡ inum
    → inum ≢ 0
    → namecmp name (dirent_name (dirent dp disk o)) ≡ true
    → ((p : ℕ) → p < o → p % sizeof_dirent ≡ 0 → Misses name (dirent dp disk p))
    → Looks name dp disk 0 l
    → l ≡ found o inum dp disk
unfolding Looks
only_found name dp disk o inum panics i a e u m before h = absurd h
only_found name dp disk o inum (absent dp' disk') i a e u m before (q, r, h) =
    absurd (not_missed name (dirent dp disk o) inum e u m (h o (omega arith) i a))
only_found name dp disk o inum (found o' inum' dp' disk') i a e u m before (q, r, h) =
    let same : o' ≡ o = elim (dec_lt o' o) [
      | yes l ↦ absurd (
          not_missed name (dirent dp disk o') inum' h.number h.used h.named (before o' l h.aligned))
      | no l ↦ elim (dec_lt o o') [
        | yes l' ↦
            absurd (not_missed name (dirent dp disk o) inum e u m (h.first o (omega arith) l' a))
        | no l' ↦ omega arith
      ]
    ] in
    let number : inum' ≡ inum = sym h.number ∙ ap (λ p. dirent_inum (dirent dp disk p)) same ∙ e in
    rw (same, number, q, r) refl
