-- ===== src/Grep.antt =====
-- grep.c: the matcher of regular expressions. A string is the list of its characters before the NUL,
-- so that `[]` is where *text, or re[0], is '\0'.
pub mod Meaning
mod Tests
use os.Prelude.{ℕ, Bool, true, false, ◌&&◌, ◌||◌, not, List, [], ◌∷◌, ◌==◌, if◌then◌else◌}

-- '^', '$', '*' and '.'.
abbrev pub caret : ℕ
caret = 94

abbrev pub dollar : ℕ
dollar = 36

abbrev pub star : ℕ
star = 42

abbrev pub dot : ℕ
dot = 46

-- re[0]=='.' || re[0]==*text
abbrev pub fits : ℕ → ℕ → Bool
fits r c = r == dot || r == c

abbrev pub is_end : List ℕ → Bool
is_end [] = true
is_end (c ∷ text) = false

-- The last test of matchhere, and what it goes on with.
pub one_char : ℕ → (List ℕ → Bool) → List ℕ → Bool
one_char r here [] = false
one_char r here (c ∷ text) = if fits r c then here text else false

-- matchstar, over matchhere for what follows the star.
pub matchstar : ℕ → (List ℕ → Bool) → List ℕ → Bool
matchstar c here [] = here []
matchstar c here (t ∷ text) =
    let more = matchstar c here text in
    if here (t ∷ text) then true else if t == c || c == dot then more else false

pub matchhere : List ℕ → List ℕ → Bool
matchhere [] text = true
matchhere (r ∷ []) text = if r == dollar then is_end text else one_char r (matchhere []) text
matchhere (r ∷ x ∷ re) text =
    let starred = matchstar r (matchhere re) text in
    let single = one_char r (matchhere (x ∷ re)) text in if x == star then starred else single

-- The loop of match, which looks at the empty string too.
pub match_from : List ℕ → List ℕ → Bool
match_from re [] = matchhere re []
match_from re (c ∷ text) =
    let later = match_from re text in if matchhere re (c ∷ text) then true else later

unfoldable pub match : List ℕ → List ℕ → Bool
match [] text = match_from [] text
match (r ∷ re) text = if r == caret then matchhere re text else match_from (r ∷ re) text
