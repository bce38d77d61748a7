-- ===== src/Fs/Path/Elements.antt =====
-- Paths written from their elements, and read again.
use os.Prelude.{
  ℕ, zero, suc, ◌+◌, ◌<◌, ◌≡◌, ◌≢◌, refl, sym, ap, ◌∙◌, inl, inr, List, [], ◌∷◌, ◌++◌, map, none,
  some, arith, leb, length, take, drop, replicate, Bool-cases, ==_of_ne, take_all,
}
use os.Fs.Path.{
  dirsiz, slash, skip_slashes, split_elem, store_name, take_elem, skipelem, name_of, elements,
}

-- No slash and no NUL.
abbrev pub IsPlain : List ℕ → Type 0
IsPlain [] = Unit {0}
IsPlain (c ∷ cs) = (c ≢ slash) × (c ≢ 0) × IsPlain cs

-- An element and the slashes after it; between two elements there is one at least.
abbrev pub Elem : Type 0
Elem = List ℕ × ℕ

abbrev pub Separated : List Elem → Type 0
Separated [] = Unit {0}
Separated ((e, n) ∷ []) = IsPlain e × (0 < length e)
Separated ((e, n) ∷ f ∷ es) = IsPlain e × (0 < length e) × (0 < n) × Separated (f ∷ es)

abbrev pub slashes : ℕ → List ℕ
slashes n = replicate n slash

-- A path as it is written.
abbrev pub render : List Elem → List ℕ
render [] = []
render ((e, n) ∷ es) = e ++ (slashes n ++ render es)

-- Where a path goes on with an element or ends.
abbrev NoSlash : List ℕ → Type 0
NoSlash [] = Unit {0}
NoSlash (c ∷ cs) = c ≢ slash

skip_all : (n : ℕ) (path : List ℕ) → NoSlash path → skip_slashes (slashes n ++ path) ≡ path
unfolding skip_slashes
skip_all zero [] h = refl
skip_all zero (c ∷ path) h = rw (==_of_ne c slash h) refl
skip_all (suc n) path h = skip_all n path h

render-NoSlash : (es : List Elem) → Separated es → NoSlash (render es)
render-NoSlash [] s = tt
render-NoSlash (([], n) ∷ []) s = absurd (omega arith)
render-NoSlash ((c ∷ e, n) ∷ []) s = s.0.0
render-NoSlash (([], n) ∷ f ∷ es) s = absurd (omega arith)
render-NoSlash ((c ∷ e, n) ∷ f ∷ es) s = s.0.0

-- What may stand behind an element: a slash, or nothing.
abbrev Behind : List ℕ → Type 0
Behind [] = Unit {0}
Behind (c ∷ cs) = c ≡ slash

split_elem_lem : (e rest : List ℕ) → IsPlain e → Behind rest → split_elem (e ++ rest) ≡ (e, rest)
unfolding split_elem
split_elem_lem [] [] p b = refl
split_elem_lem [] (c ∷ rest) p b = rw b refl
split_elem_lem (c ∷ e) rest (h, z, p) b = rw (==_of_ne c slash h, split_elem_lem e rest p b) refl

name_of-plain : (e rest : List ℕ) → IsPlain e → name_of (e ++ (0 ∷ rest)) ≡ e
unfolding name_of
name_of-plain [] rest p = refl
name_of-plain (c ∷ e) rest (h, z, p) =
    rw (==_of_ne c 0 z) (ap (λ s. c ∷ s) (name_of-plain e rest p))

name_of-take : (n : ℕ) (e : List ℕ) → IsPlain e → name_of (take n e) ≡ take n e
unfolding name_of
name_of-take zero e p = refl
name_of-take (suc n) [] p = refl
name_of-take (suc n) (c ∷ e) (h, z, p) = rw (==_of_ne c 0 z) (ap (λ s. c ∷ s) (name_of-take n e p))

-- The name is the element, cut to DIRSIZ characters, whatever the buffer held before.
name_of-store_name : (name e : List ℕ) → IsPlain e → name_of (store_name name e) ≡ take dirsiz e
unfolding store_name
name_of-store_name name e p = elim (Bool-cases (leb dirsiz (length e))) [
  | inl long ↦ rw long (name_of-take dirsiz e p)
  | inr short ↦
      rw short
        (name_of-plain e (drop (length e + 1) name) p ∙ sym (take_all dirsiz e (ground arith)))
]

Behind-slashes : (n : ℕ) (es : List Elem) → (n ≡ 0 → es ≡ []) → Behind (slashes n ++ render es)
Behind-slashes zero [] h = tt
Behind-slashes zero (e ∷ es) h = cc (h refl)
Behind-slashes (suc n) es h = refl

Separated-first :
    (e : List ℕ) (n : ℕ) (es : List Elem)
    → Separated ((e, n) ∷ es)
    → IsPlain e × (0 < length e) × (n ≡ 0 → es ≡ []) × Separated es
Separated-first e n [] s = (s.0, s.1, (λ z. refl), tt)
Separated-first e n (f ∷ es) s = (s.0, s.1, (λ z. absurd (omega arith)), s.3)

take_elem_lem :
    (e : List ℕ) (n : ℕ) (es : List Elem) (name : List ℕ)
    → Separated ((e, n) ∷ es)
    → take_elem name (render ((e, n) ∷ es)) ≡ some (render es, store_name name e)
unfolding take_elem
take_elem_lem [] n es name s =
    let (p, l, z, rest) = Separated-first [] n es s in absurd (omega arith)
take_elem_lem (c ∷ e) n es name s =
    let (p, l, z, rest) = Separated-first (c ∷ e) n es s in
    rw
      (
        split_elem_lem (c ∷ e) (slashes n ++ render es) p (Behind-slashes n es z),
        skip_all n (render es) (render-NoSlash es rest),
      )
      refl

skipelem_lem :
    (k : ℕ) (e : List ℕ) (n : ℕ) (es : List Elem) (name : List ℕ)
    → Separated ((e, n) ∷ es)
    → skipelem (slashes k ++ render ((e, n) ∷ es)) name ≡ some (render es, store_name name e)
unfolding skipelem
skipelem_lem k e n es name s =
    rw (skip_all k (render ((e, n) ∷ es)) (render-NoSlash ((e, n) ∷ es) s))
      (take_elem_lem e n es name s)

skipelem_end : (k : ℕ) (name : List ℕ) → skipelem (slashes k ++ []) name ≡ none
unfolding skipelem take_elem
skipelem_end k name = rw (skip_all k [] tt) refl

-- What the loop of namex gets from a path that was written from its elements, with any number of
-- slashes before, between and after them, are these elements in order, each cut to DIRSIZ
-- characters, whatever stood in the name buffer; and then the path is at its end.
pub elements-render :
    (rounds k : ℕ) (es : List Elem) (name : List ℕ)
    → Separated es
    → length es < rounds
    → elements rounds (slashes k ++ render es) name ≡ map (λ e. take dirsiz e.0) es
unfolding elements
elements-render zero k es name s h = absurd (omega arith)
elements-render (suc rounds) k [] name s h = rw (elements, skipelem_end k name) refl
elements-render (suc rounds) k ((e, n) ∷ es) name s h =
    let (p, l, z, rest) = Separated-first e n es s in
    rw (elements, skipelem_lem k e n es name s, name_of-store_name name e p)
      (ap (λ names. take dirsiz e ∷ names)
        (elements-render rounds 0 es (store_name name e) rest (omega arith)))
