-- ===== src/Files/Dup.antt =====
-- dup: a second descriptor for an open file.
use mathlib.Core.Path.{subst}
use os.Prelude.{
  ℕ, zero, suc, ◌+◌, ◌<◌, ◌≡◌, ◌≢◌, refl, sym, ap, ◌∙◌, ◌⊎◌, inl, inr, List, [], ◌∷◌, Option, none,
  some, arith, leb, get_elem?, modify, set, some_inj, none≢some, Bool-cases, Option-cases, ==_of_eq,
  ==_of_ne, ltb_of_le, ◌>>=◌,
}
use os.Files.{
  File, set_ref, dup_ref, filedup, argfd, find_fd, fdalloc, Outcome, panicked, failed, answers,
  dup_into, dup_file, sys_dup, nofile,
}
use os.Files.Counted.{Counts, one_more, with_fds, holders-fill, holds, modify-Counts, Counts-same}

-- A file that something refers to can be referred to once more.
pub filedup-Counts :
    (table : List File) (refs : ℕ → ℕ) (i : ℕ)
    → Counts table refs
    → 0 < refs i
    → (table' : List File) × (filedup i table ≡ some table') × Counts table' (one_more i refs)
unfolding filedup dup_ref set_ref
filedup-Counts table refs i c h =
    let (f, e) = c.inside i h in
    let count = c.right i f e in
    (
      modify table i (set_ref (f.ref + 1)),
      rw (e, ltb_of_le f.ref 1 (omega arith)) refl,
      modify-Counts table refs (one_more i refs) i (set_ref (f.ref + 1)) f c e
          (rw (==_of_eq i i refl) (omega arith)) (λ j ne. rw (==_of_ne i j ne) refl),
    )

-- The descriptor that fdalloc's search finds is free.
find_fd-free :
    (ofile : List (Option ℕ)) (i j : ℕ)
    → find_fd ofile i ≡ some j
    → (k : ℕ) × (j ≡ i + k) × (get_elem? ofile k ≡ some none)
unfolding find_fd
find_fd-free [] i j e = absurd (none≢some e)
find_fd-free (none ∷ fs) i j e = (0, sym (some_inj e) ∙ omega arith, refl)
find_fd-free (some f ∷ fs) i j e =
    let (k, at, free) = find_fd-free fs (i + 1) j e in (suc k, omega arith, free)

find_fd-full :
    (ofile : List (Option ℕ)) (i : ℕ)
    → find_fd ofile i ≡ none
    → (k : ℕ) → get_elem? ofile k ≢ some none
unfolding find_fd
find_fd-full [] i e k = λ q. none≢some q
find_fd-full (none ∷ fs) i e k = absurd (none≢some (sym e))
find_fd-full (some f ∷ fs) i e zero = λ q. none≢some (sym (some_inj q))
find_fd-full (some f ∷ fs) i e (suc k) = find_fd-full fs (i + 1) e k

pub argfd-at :
    (ofile : List (Option ℕ)) (fd f : ℕ)
    → argfd fd ofile ≡ some f
    → get_elem? ofile fd ≡ some (some f)
unfolding argfd
argfd-at ofile fd f e = elim (Bool-cases (leb nofile fd)) [
  | inl b ↦ absurd (none≢some (rw b at e))
  | inr b ↦ elim (Option-cases (get_elem? ofile fd)) [
    | inl q ↦ absurd (none≢some (rw (b, q) at e))
    | inr (o, q) ↦ q ∙ ap some (rw (b, q) at e)
  ]
]

-- What an outcome of dup says.
abbrev pub Dups : ℕ → List File → List (Option ℕ) → (ℕ → ℕ) → Outcome ℕ → Type 0
Dups fd table ofile others panicked = ⊥
Dups fd table ofile others failed =
    (argfd fd ofile ≡ none) ⊎ ((k : ℕ) → get_elem? ofile k ≢ some none)
Dups fd table ofile others (answers new table' ofile') =
    (f : ℕ) × (argfd fd ofile ≡ some f)
    × (get_elem? ofile new ≡ some none)
    × (ofile' ≡ set ofile new (some f))
    × Counts table' (with_fds ofile' others)

one_more-fill :
    (ofile : List (Option ℕ)) (others : ℕ → ℕ) (new f i : ℕ)
    → get_elem? ofile new ≡ some none
    → with_fds (set ofile new (some f)) others i ≡ one_more f (with_fds ofile others) i
one_more-fill ofile others new f i e = let h = holders-fill ofile new f i e in ground arith

dup_into-some :
    (f fd : ℕ) (table table' : List File) (ofile : List (Option ℕ))
    → filedup f table ≡ some table'
    → dup_into f table (some (fd, ofile)) ≡ answers fd table' ofile
unfolding dup_into
dup_into-some f fd table table' ofile e = rw (dup_into, e) refl

dup_into-Dups :
    (fd f : ℕ) (table : List File) (ofile : List (Option ℕ)) (others : ℕ → ℕ) (new : Option ℕ)
    → Counts table (with_fds ofile others)
    → argfd fd ofile ≡ some f
    → find_fd ofile 0 ≡ new
    → Dups fd table ofile others (dup_into f table (new >>= λ k. some (k, set ofile k (some f))))
unfolding dup_into
dup_into-Dups fd f table ofile others none c a e = inr (find_fd-full ofile 0 e)
dup_into-Dups fd f table ofile others (some new) c a e =
    let (k, at, free) = find_fd-free ofile 0 new e in
    let place : k ≡ new = omega arith in
    let free' = ap (λ n. get_elem? ofile n) (sym place) ∙ free in
    let some_holder = holds ofile fd f (argfd-at ofile fd f a) in
    let (table', runs, counts) = filedup-Counts table (with_fds ofile others) f c (omega arith) in
    subst (Dups fd table ofile others)
      (sym (dup_into-some f new table table' (set ofile new (some f)) runs))
      (
        f,
        a,
        free',
        refl,
        Counts-same table' (one_more f (with_fds ofile others))
            (with_fds (set ofile new (some f)) others) counts
            (λ i. one_more-fill ofile others new f i free'),
      )

-- Where every reference count is the number of references, those of the other processes included,
-- dup does not panic. It fails just if the descriptor is not open or there is none to spare, and
-- else it gives a free descriptor to the same file, and the counts are right again.
pub sys_dup-Dups :
    (fd : ℕ) (table : List File) (ofile : List (Option ℕ)) (others : ℕ → ℕ)
    → Counts table (with_fds ofile others)
    → Dups fd table ofile others (sys_dup fd table ofile)
unfolding sys_dup dup_file fdalloc
sys_dup-Dups fd table ofile others c = elim (Option-cases (argfd fd ofile)) [
  | inl e ↦ rw e (inl e)
  | inr (f, e) ↦ rw e (dup_into-Dups fd f table ofile others (find_fd ofile 0) c e refl)
]
