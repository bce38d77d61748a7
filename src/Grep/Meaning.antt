-- ===== src/Grep/Meaning.antt =====
-- What a regular expression means, apart from how it is searched for.
use os.Prelude.{
  ℕ, ◌≡◌, ◌≢◌, ◌↔◌, refl, ap, ◌⊎◌, inl, inr, Bool, true, ◌||◌, List, [], ◌∷◌, ◌++◌, arith, ◌==◌,
  Bool-cases, ==_of_eq, ==_of_ne,
}
use os.Grep.{
  caret, dollar, star, dot, fits, is_end, one_char, matchstar, matchhere, match_from, match,
}

-- Every character of a text fits r.
abbrev pub AllFit : ℕ → List ℕ → Type 0
AllFit r [] = Unit {0}
AllFit r (c ∷ cs) = (fits r c ≡ true) × AllFit r cs

-- What may stand behind a character that is no special one.
abbrev pub NoStar : List ℕ → Type 0
NoStar [] = Unit {0}
NoStar (x ∷ re) = x ≢ star

abbrev pub Final : ℕ → List ℕ → Type 0
Final r [] = r ≢ dollar
Final r (x ∷ re) = Unit {0}

-- A text begins with what the expression describes: nothing, the end of the text, one character that
-- fits, or any number of such characters.
pub data Begins : List ℕ → List ℕ → Type 0 where
  nothing : (text : List ℕ) → Begins [] text
  at_end : (r : ℕ) → r ≡ dollar → Begins (r ∷ []) []
  one :
      (r c : ℕ) (re text : List ℕ)
      → fits r c ≡ true
      → NoStar re
      → Final r re
      → Begins re text
      → Begins (r ∷ re) (c ∷ text)
  many :
      (r x : ℕ) (re front text whole : List ℕ)
      → x ≡ star
      → AllFit r front
      → Begins re text
      → whole ≡ front ++ text
      → Begins (r ∷ x ∷ re) whole

-- Somewhere in a text.
pub record Occurs (re text : List ℕ) : Type 0 where
  pub before : List ℕ
  pub from : List ℕ
  pub split : text ≡ before ++ from
  pub begins : Begins re from

-- With '^' first the text has to begin with the rest, and else it may occur anywhere.
abbrev pub Means : List ℕ → List ℕ → Type 0
Means [] text = Occurs [] text
Means (r ∷ re) text = ((r ≡ caret) × Begins re text) ⊎ ((r ≢ caret) × Occurs (r ∷ re) text)

-- What a star matches, for the texts that `here` accepts behind it.
pub record Stars (r : ℕ) (here : List ℕ → Bool) (text : List ℕ) : Type 0 where
  pub front : List ℕ
  pub rest : List ℕ
  pub split : text ≡ front ++ rest
  pub fit : AllFit r front
  pub ok : here rest ≡ true

matchstar_sound :
    (r : ℕ) (here : List ℕ → Bool) (text : List ℕ)
    → matchstar r here text ≡ true
    → Stars r here text
unfolding matchstar
matchstar_sound r here [] h = record { front = []; rest = []; split = refl; fit = tt; ok = h }
matchstar_sound r here (t ∷ text) h = elim (Bool-cases (here (t ∷ text))) [
  | inl e ↦ record { front = []; rest = t ∷ text; split = refl; fit = tt; ok = e }
  | inr e ↦ elim (Bool-cases (t == r || r == dot)) [
    | inl f ↦
        let s = matchstar_sound r here text (rw (e, f) at h) in
        record {
          front = t ∷ s.front;
          rest = s.rest;
          split = ap (λ u. t ∷ u) s.split;
          fit = (ground arith, s.fit);
          ok = s.ok;
        }
    | inr f ↦ cc (rw (e, f) at h)
  ]
]

matchstar_complete :
    (r : ℕ) (here : List ℕ → Bool) (front rest : List ℕ)
    → AllFit r front
    → here rest ≡ true
    → matchstar r here (front ++ rest) ≡ true
unfolding matchstar
matchstar_complete r here [] [] fit ok = ok
matchstar_complete r here [] (t ∷ rest) fit ok = rw ok refl
matchstar_complete r here (c ∷ front) rest (f, fit) ok =
    let later = matchstar_complete r here front rest fit ok in ground arith

one_char_sound :
    (r : ℕ) (re text : List ℕ)
    → NoStar re
    → Final r re
    → ((t : List ℕ) → matchhere re t ≡ true → Begins re t)
    → one_char r (matchhere re) text ≡ true
    → Begins (r ∷ re) text
unfolding one_char
one_char_sound r re [] n f rest h = cc
one_char_sound r re (c ∷ text) n f rest h = elim (Bool-cases (fits r c)) [
  | inl e ↦ one r c re text e n f (rest text (rw e at h))
  | inr e ↦ cc (rw e at h)
]

end_sound : (r : ℕ) (text : List ℕ) → r ≡ dollar → is_end text ≡ true → Begins (r ∷ []) text
end_sound r [] e h = at_end r e
end_sound r (c ∷ text) e h = cc

matchhere_sound : (re text : List ℕ) → matchhere re text ≡ true → Begins re text
unfolding matchhere
matchhere_sound [] text h = nothing text
matchhere_sound (r ∷ []) text h = elim (Bool-cases (r == dollar)) [
  | inl e ↦ end_sound r text (ground arith) (rw e at h)
  | inr e ↦ one_char_sound r [] text tt (ground arith) (λ t k. nothing t) (rw e at h)
]
matchhere_sound (r ∷ x ∷ re) text h = elim (Bool-cases (x == star)) [
  | inl e ↦
      let s = matchstar_sound r (matchhere re) text (rw e at h) in
      many r x re s.front s.rest text (ground arith) s.fit (matchhere_sound re s.rest s.ok) s.split
  | inr e ↦
      one_char_sound r (x ∷ re) text (ground arith) tt (λ t k. matchhere_sound (x ∷ re) t k)
        (rw e at h)
]

matchhere_complete : (re text : List ℕ) → Begins re text → matchhere re text ≡ true
unfolding matchhere one_char
matchhere_complete re text (nothing _) = refl
matchhere_complete re text (at_end r e) = rw (==_of_eq r dollar e) refl
matchhere_complete _ _ (one r c [] rest f n d b) = rw (==_of_ne r dollar d, f) refl
matchhere_complete _ _ (one r c (x ∷ re) rest f n d b) =
    let later = matchhere_complete (x ∷ re) rest b in rw (==_of_ne x star n, f) later
matchhere_complete _ _ (many r x re front rest whole e fit b w) =
    let later = matchhere_complete re rest b in
    rw (==_of_eq x star e, w) (matchstar_complete r (matchhere re) front rest fit later)

match_from_sound : (re text : List ℕ) → match_from re text ≡ true → Occurs re text
unfolding match_from
match_from_sound re [] h = record {
  before = [];
  from = [];
  split = refl;
  begins = matchhere_sound re [] h;
}
match_from_sound re (c ∷ text) h = elim (Bool-cases (matchhere re (c ∷ text))) [
  | inl e ↦ record {
    before = [];
    from = c ∷ text;
    split = refl;
    begins = matchhere_sound re (c ∷ text) e;
  }
  | inr e ↦
      let o = match_from_sound re text (rw e at h) in
      record {
        before = c ∷ o.before;
        from = o.from;
        split = ap (λ t. c ∷ t) o.split;
        begins = o.begins;
      }
]

match_from_complete :
    (re before from : List ℕ) → matchhere re from ≡ true → match_from re (before ++ from) ≡ true
unfolding match_from
match_from_complete re [] [] h = h
match_from_complete re [] (c ∷ from) h = rw h refl
match_from_complete re (c ∷ before) from h =
    let later = match_from_complete re before from h in ground arith

Occurs-match_from : (re text : List ℕ) → Occurs re text → match_from re text ≡ true
Occurs-match_from re text o =
    rw o.split (match_from_complete re o.before o.from (matchhere_complete re o.from o.begins))

-- The matcher decides what regular expressions mean. match accepts a text just if it begins with
-- what the expression describes, where that starts with '^', or contains it anywhere else; there a
-- star stands for any number of characters that fit, and a '$' at the end for the end of the text.
pub match-Means : (re text : List ℕ) → (match re text ≡ true) ↔ Means re text
unfolding match
match-Means [] text = (match_from_sound [] text, Occurs-match_from [] text)
match-Means (r ∷ re) text = elim (Bool-cases (r == caret)) [
  | inl e ↦
      let same : r ≡ caret = ground arith in
      rw e (
        (λ h. inl (same, matchhere_sound re text h)),
        λ m. elim m [ inl (q, b) ↦ matchhere_complete re text b | inr (q, o) ↦ absurd (q same) ],
      )
  | inr e ↦
      let differ : r ≢ caret = ground arith in
      rw e (
        (λ h. inr (differ, match_from_sound (r ∷ re) text h)),
        λ m. elim m [
          | inl (q, b) ↦ absurd (differ q)
          | inr (q, o) ↦ Occurs-match_from (r ∷ re) text o
        ],
      )
]
