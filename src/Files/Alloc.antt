-- ===== src/Files/Alloc.antt =====
-- filealloc, which makes a reference to a file that had none, and fdalloc's search.
use os.Prelude.{
  ℕ, zero, suc, ◌+◌, ◌≡◌, ◌≢◌, refl, sym, ap, ◌∙◌, inl, inr, List, [], ◌∷◌, Option, none, some,
  arith, ◌==◌, get_elem?, some_inj, none≢some, Bool-cases, ==_of_eq, ==_of_ne,
}
use os.Files.{File, set_ref, find_file, take_file, filealloc}
use os.Files.Counted.{Counts, one_more, modify-Counts}

-- The search finds a file with count 0, or there is none.
abbrev Finds : List File → ℕ → Option ℕ → Type 0
Finds table i none = (k : ℕ) (f : File) → get_elem? table k ≡ some f → f.ref ≢ 0
Finds table i (some j) =
    (k : ℕ) × (f : File) × (j ≡ i + k) × (get_elem? table k ≡ some f) × (f.ref ≡ 0)

none_later :
    (f : File) (fs : List File) (i : ℕ) → f.ref ≢ 0 → Finds fs (i + 1) none → Finds (f ∷ fs) i none
none_later f fs i h all zero g e = λ z. h (ap (λ x. x.ref) (some_inj e) ∙ z)
none_later f fs i h all (suc k) g e = all k g e

later :
    (f : File) (fs : List File) (i : ℕ) (r : Option ℕ)
    → f.ref ≢ 0
    → Finds fs (i + 1) r
    → Finds (f ∷ fs) i r
later f fs i none h all = none_later f fs i h all
later f fs i (some j) h (k, g, e, at, z) = (suc k, g, omega arith, at, z)

find_file-Finds : (table : List File) (i : ℕ) → Finds table i (find_file table i)
unfolding find_file
find_file-Finds [] i = λ k f e. absurd (none≢some e)
find_file-Finds (f ∷ fs) i = elim (Bool-cases (f.ref == 0)) [
  | inl e ↦ rw e (0, f, omega arith, refl, ground arith)
  | inr e ↦ rw e (later f fs i (find_file fs (i + 1)) (ground arith) (find_file-Finds fs (i + 1)))
]

-- What filealloc's answer says of the references.
abbrev pub Allocates : List File → (ℕ → ℕ) → Option ℕ × List File → Type 0
Allocates table refs (none, table') =
    (table' ≡ table) × ((k : ℕ) (f : File) → get_elem? table k ≡ some f → f.ref ≢ 0)
Allocates table refs (some i, table') = (refs i ≡ 0) × Counts table' (one_more i refs)

take_file-Allocates :
    (table : List File) (refs : ℕ → ℕ) (r : Option ℕ)
    → Counts table refs
    → Finds table 0 r
    → Allocates table refs (take_file table r)
unfolding take_file set_ref
take_file-Allocates table refs none c all = (refl, all)
take_file-Allocates table refs (some i) c (k, f, e, at, z) =
    let place : i ≡ k = omega arith in
    let here = ap (λ n. get_elem? table n) place ∙ at in
    let unused = sym (c.right i f here) ∙ z in
    (
      unused,
      modify-Counts table refs (one_more i refs) i (set_ref 1) f c here
          (let s = ==_of_eq i i refl in rw (s, unused) (omega arith))
          (λ j ne. rw (==_of_ne i j ne) refl),
    )

-- filealloc hands out a file that nothing refers to and counts the one reference to it, or every
-- file is in use.
pub filealloc-Allocates :
    (table : List File) (refs : ℕ → ℕ) → Counts table refs → Allocates table refs (filealloc table)
unfolding filealloc
filealloc-Allocates table refs c =
    take_file-Allocates table refs (find_file table 0) c (find_file-Finds table 0)
