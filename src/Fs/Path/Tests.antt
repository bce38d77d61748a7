-- ===== src/Fs/Path/Tests.antt =====
-- The examples of skipelem's comment, and the theorem at a path.
use os.Prelude.{ℕ, ◌≡◌, refl, List, [], ◌∷◌, ◌++◌, map, none, some, take, replicate, arith}
use os.Fs.Path.{dirsiz, skip_slashes, split_elem, store_name, take_elem, skipelem, elements}
use os.Fs.Path.Elements.{Elem, slashes, render, elements-render}

abbrev buffer : List ℕ
buffer = replicate 14 1

-- "///a//bb" gives "bb", with "a" in the buffer.
skip_run :
    skipelem (47 ∷ 47 ∷ 47 ∷ 97 ∷ 47 ∷ 47 ∷ 98 ∷ 98 ∷ []) buffer
    ≡ some (98 ∷ 98 ∷ [], 97 ∷ 0 ∷ replicate 12 1)
unfolding skipelem skip_slashes take_elem split_elem store_name
skip_run = refl

skip_slashes_only : skipelem (47 ∷ 47 ∷ []) buffer ≡ none
unfolding skipelem skip_slashes take_elem
skip_slashes_only = refl

-- "/usr//x"
abbrev parts : List Elem
parts = (117 ∷ 115 ∷ 114 ∷ [], 2) ∷ (120 ∷ [], 0) ∷ []

elements-render_example :
    elements 3 (slashes 1 ++ render parts) buffer ≡ map (λ e. take dirsiz e.0) parts
elements-render_example = elements-render 3 1 parts buffer (ground arith) (omega arith)
