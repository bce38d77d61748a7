-- ===== src/Grep/Tests.antt =====
-- Searches for small expressions, and the theorem at one of them.
use os.Prelude.{ℕ, ◌≡◌, ◌↔◌, refl, true, false, List, [], ◌∷◌}
use os.Grep.{match, match_from, matchhere, matchstar, one_char}
use os.Grep.Meaning.{Means, match-Means}

-- "b*c$"
abbrev pattern_bc : List ℕ
pattern_bc = 98 ∷ 42 ∷ 99 ∷ 36 ∷ []

found : match pattern_bc (97 ∷ 98 ∷ 98 ∷ 99 ∷ []) ≡ true
unfolding match match_from matchhere matchstar one_char
found = refl

not_at_end : match pattern_bc (99 ∷ 98 ∷ []) ≡ false
unfolding match match_from matchhere matchstar one_char
not_at_end = refl

match-Means_example :
    (match pattern_bc (97 ∷ 98 ∷ 98 ∷ 99 ∷ []) ≡ true) ↔ Means pattern_bc (97 ∷ 98 ∷ 98 ∷ 99 ∷ [])
match-Means_example = match-Means pattern_bc (97 ∷ 98 ∷ 98 ∷ 99 ∷ [])
