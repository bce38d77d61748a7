-- ===== src/Files/Counted.antt =====
-- Reference counts against references: who holds a file, and what one reference more or less does.
use os.Prelude.{
  ℕ, zero, suc, ◌+◌, ◌<◌, ◌≡◌, ◌≢◌, refl, sym, ap, ◌∙◌, List, [], ◌∷◌, Option, none, some, arith,
  ◌==◌, if◌then◌else◌, get_elem?, modify, set, some_inj, none≢some, get_elem?-modify_self,
  get_elem?-modify_ne,
}
use native.Mathlib.Decide.{ℕ_discrete}
use os.Files.{File}

-- How many of the descriptors refer to file i.
abbrev pub holders : ℕ → List (Option ℕ) → ℕ
holders i [] = 0
holders i (none ∷ fs) = holders i fs
holders i (some f ∷ fs) = if f == i then 1 + holders i fs else holders i fs

-- One reference more to file k.
abbrev pub one_more : ℕ → (ℕ → ℕ) → ℕ → ℕ
one_more k refs i = if k == i then 1 + refs i else refs i

-- Each reference count is the number of references, and what is referred to is in the table.
pub record Counts (table : List File) (refs : ℕ → ℕ) : Type 0 where
  pub right : (i : ℕ) (f : File) → get_elem? table i ≡ some f → f.ref ≡ refs i
  pub inside : (i : ℕ) → 0 < refs i → (f : File) × (get_elem? table i ≡ some f)

-- The references from these descriptors, and from elsewhere.
abbrev pub with_fds : List (Option ℕ) → (ℕ → ℕ) → ℕ → ℕ
with_fds ofile others i = holders i ofile + others i

pub holders-fill :
    (ofile : List (Option ℕ)) (fd f i : ℕ)
    → get_elem? ofile fd ≡ some none
    → holders i (set ofile fd (some f)) ≡ (if f == i then 1 + holders i ofile else holders i ofile)
holders-fill [] fd f i e = absurd (none≢some e)
holders-fill (none ∷ fs) zero f i e = refl
holders-fill (some g ∷ fs) zero f i e = absurd (none≢some (sym (some_inj e)))
holders-fill (none ∷ fs) (suc fd) f i e = holders-fill fs fd f i e
holders-fill (some g ∷ fs) (suc fd) f i e = let rest = holders-fill fs fd f i e in ground arith

pub holders-clear :
    (ofile : List (Option ℕ)) (fd f i : ℕ)
    → get_elem? ofile fd ≡ some (some f)
    → holders i ofile ≡ one_more f (λ j. holders j (set ofile fd none)) i
holders-clear [] fd f i e = absurd (none≢some e)
holders-clear (none ∷ fs) zero f i e = absurd (none≢some (some_inj e))
holders-clear (some g ∷ fs) zero f i e = rw (some_inj (some_inj e)) refl
holders-clear (none ∷ fs) (suc fd) f i e = holders-clear fs fd f i e
holders-clear (some g ∷ fs) (suc fd) f i e = let rest = holders-clear fs fd f i e in ground arith

pub holds :
    (ofile : List (Option ℕ)) (fd f : ℕ) → get_elem? ofile fd ≡ some (some f) → 0 < holders f ofile
holds ofile fd f e = let c = holders-clear ofile fd f f e in ground arith

-- A table in which the count of file k was changed is right about the references that say so too.
pub modify-Counts :
    (table : List File) (refs refs' : ℕ → ℕ) (k : ℕ) (g : File → File) (f : File)
    → Counts table refs
    → get_elem? table k ≡ some f
    → (g f).ref ≡ refs' k
    → ((i : ℕ) → k ≢ i → refs' i ≡ refs i)
    → Counts (modify table k g) refs'
modify-Counts table refs refs' k g f c e at stay = record {
  right = λ i f' e'. elim (ℕ_discrete k i) [
    | yes q ↦
        let found = get_elem?-modify_self table k g f e in
        let moved = ap (λ j. get_elem? (modify table k g) j) (sym q) in
        ap (λ h. h.ref) (some_inj (sym e' ∙ moved ∙ found)) ∙ at ∙ ap refs' q
    | no q ↦ c.right i f' (sym (get_elem?-modify_ne table k i g q) ∙ e') ∙ sym (stay i q)
  ];
  inside = λ i h. elim (ℕ_discrete k i) [
    | yes q ↦ (g f, rw (← q) (get_elem?-modify_self table k g f e))
    | no q ↦
        let (f', e') = c.inside i (rw (← stay i q) h) in
        (f', get_elem?-modify_ne table k i g q ∙ e')
  ];
}

pub Counts-same :
    (table : List File) (refs refs' : ℕ → ℕ)
    → Counts table refs
    → ((i : ℕ) → refs' i ≡ refs i)
    → Counts table refs'
Counts-same table refs refs' c same = record {
  right = λ i f e. c.right i f e ∙ sym (same i);
  inside = λ i h. c.inside i (rw (← same i) h);
}
