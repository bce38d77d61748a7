-- ===== src/Args/Tests.antt =====
-- The arguments of a system call on a small stack, and the theorems at concrete inputs.
use os.Prelude.{ℕ, ◌-◌, ◌^◌, ◌≡◌, refl, none, some, arith, get_or, [], ◌∷◌, ◌↔◌}
use os.Args.{fetchint, argint, check_ptr, argptr, find_nul, fetchstr}
use os.Args.Bounds.{InBounds, argptr-InBounds, argptr_negative}

-- The string "hi" at 0, and a stack at 4 whose first argument is the pointer 16.
abbrev memory : ℕ → ℕ
memory a = get_or (104 ∷ 105 ∷ 0 ∷ 0 ∷ 0 ∷ 0 ∷ 0 ∷ 0 ∷ 16 ∷ []) a 0

argptr_run : argptr memory 24 4 0 8 ≡ some 16
unfolding argptr argint fetchint check_ptr
argptr_run = refl

argptr_too_long : argptr memory 24 4 0 9 ≡ none
unfolding argptr argint fetchint check_ptr
argptr_too_long = refl

fetchstr_run : fetchstr memory 24 0 ≡ some 2
unfolding fetchstr find_nul
fetchstr_run = refl

argptr-InBounds_example : (argptr memory 24 4 0 8 ≡ some 16) ↔ InBounds memory 24 4 0 8 16
argptr-InBounds_example = argptr-InBounds memory 24 4 0 8 16 (omega arith) (omega arith)

-- read(fd, 16, -1)
argptr_negative_example : argptr memory 24 4 0 (2 ^ 32 - 1) ≡ some 16
argptr_negative_example =
    argptr_negative memory 24 4 0 1 16 (omega arith) (omega arith) refl (omega arith) (omega arith)
      (omega arith)
