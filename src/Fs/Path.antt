-- ===== src/Fs/Path.antt =====
-- skipelem of fs.c. A path is the list of its characters before the NUL, so that `[]` is where *path
-- is 0; `name` is the buffer of DIRSIZ bytes that takes the element.
pub mod Elements
mod Tests
use os.Prelude.{
  ℕ, zero, suc, ◌+◌, Bool, true, false, not, ◌&&◌, List, [], ◌∷◌, ◌++◌, Option, none, some, ◌==◌,
  leb, if◌then◌else◌, length, take, drop,
}

abbrev pub dirsiz : ℕ
dirsiz = 14

abbrev pub slash : ℕ
slash = 47

-- while(*path == '/') path++;
unfoldable pub skip_slashes : List ℕ → List ℕ
skip_slashes [] = []
skip_slashes (c ∷ path) = if c == slash then skip_slashes path else c ∷ path

-- while(*path != '/' && *path != 0) path++; the characters from s on, and the path then.
unfoldable pub split_elem : List ℕ → List ℕ × List ℕ
split_elem [] = ([], [])
split_elem (c ∷ path) =
    let (elem, rest) = split_elem path in if c == slash then ([], c ∷ path) else (c ∷ elem, rest)

-- The buffer after memmove, and after the NUL where there is room for one.
pub store_name : List ℕ → List ℕ → List ℕ
store_name name elem =
    if leb dirsiz (length elem) then take dirsiz elem else elem ++ (0 ∷ drop (length elem + 1) name)

-- What is left at the first character that is no slash: 0, or the rest of the path and the name.
unfoldable pub take_elem : List ℕ → List ℕ → Option (List ℕ × List ℕ)
take_elem name [] = none
take_elem name (c ∷ path) =
    let (elem, rest) = split_elem (c ∷ path) in some (skip_slashes rest, store_name name elem)

unfoldable pub skipelem : List ℕ → List ℕ → Option (List ℕ × List ℕ)
skipelem path name = take_elem name (skip_slashes path)

-- The name in a buffer: up to the first NUL, or all of it.
pub name_of : List ℕ → List ℕ
name_of [] = []
name_of (c ∷ name) = let rest = name_of name in if c == 0 then [] else c ∷ rest

-- The names that the loop of namex gets from a path, `while((path = skipelem(path, name)) != 0)`, in
-- so many rounds.
pub elements : ℕ → List ℕ → List ℕ → List (List ℕ)
elements zero path name = []
elements (suc rounds) path name = elim (skipelem path name) [
  | none ↦ []
  | some (rest, name') ↦ name_of name' ∷ elements rounds rest name'
]
