-- ===== src/Text/Tests.antt =====
-- Runs of the string functions on a small memory, and the theorems at concrete inputs.
use os.Prelude.{zero, suc, ◌≡◌, refl, arith, get_or, [], ◌∷◌}
use os.Text.{Memory, copy_up, copy_down, memmove, memcmp, copy_string, safestrcpy}
use os.Text.Move.{moved, memmove-moved}
use os.Text.Compare.{AreBytes}

-- "abc" at 0, and at 4 four bytes that are no string.
abbrev memory : Memory
memory a = get_or (97 ∷ 98 ∷ 99 ∷ 0 ∷ 98 ∷ 99 ∷ 255 ∷ 255 ∷ []) a 7

memory-AreBytes : AreBytes memory
memory-AreBytes zero = omega arith
memory-AreBytes (suc zero) = omega arith
memory-AreBytes (suc (suc zero)) = omega arith
memory-AreBytes (suc (suc (suc zero))) = omega arith
memory-AreBytes (suc (suc (suc (suc zero)))) = omega arith
memory-AreBytes (suc (suc (suc (suc (suc zero))))) = omega arith
memory-AreBytes (suc (suc (suc (suc (suc (suc zero)))))) = omega arith
memory-AreBytes (suc (suc (suc (suc (suc (suc (suc zero))))))) = omega arith
memory-AreBytes (suc (suc (suc (suc (suc (suc (suc (suc a)))))))) = omega arith

overlap_run : memmove 1 0 3 memory 3 ≡ 99
unfolding memmove copy_down copy_up
overlap_run = refl

compare_run : memcmp 1 4 2 memory ≡ 0
unfolding memcmp
compare_run = refl

copy_run : safestrcpy 4 0 3 memory 6 ≡ 0
unfolding safestrcpy copy_string
copy_run = refl

memmove-moved_example : memmove 1 0 3 memory 3 ≡ moved 1 0 3 memory 3
memmove-moved_example = memmove-moved 1 0 3 memory 3
