-- ===== src/Fs/Dir/Tests.antt =====
-- Names in the sample directory, and the theorems at it.
use os.Prelude.{ℕ, ◌≡◌, refl, true, List, [], ◌∷◌}
use os.Fs.Samples.{small_disk, no_device, dir, dir-Solid}
use os.Fs.Dir.{same_name, namecmp, dirlookup}
use os.Fs.Dir.Search.{Looks, dirlookup-Looks}

-- "ab"
abbrev name_ab : List ℕ
name_ab = 97 ∷ 98 ∷ []

padded : namecmp name_ab (97 ∷ 98 ∷ 0 ∷ 7 ∷ []) ≡ true
unfolding namecmp same_name
padded = refl

dirlookup-Looks_example :
    Looks name_ab dir small_disk 0 (dirlookup no_device name_ab dir small_disk)
dirlookup-Looks_example = dirlookup-Looks 8 100 no_device name_ab dir small_disk dir-Solid
