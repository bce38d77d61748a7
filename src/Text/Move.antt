-- ===== src/Text/Move.antt =====
-- memmove, also where source and destination overlap.
use os.Prelude.{
  ℕ, zero, suc, ◌+◌, ◌-◌, ◌≤◌, ◌<◌, ◌≡◌, refl, ap, ◌∙◌, ◌⊎◌, inl, inr, true, false, ◌&&◌, arith,
  ◌==◌, ltb, leb, if◌then◌else◌, Bool-cases,
}
use native.Mathlib.Decide.{dec_le}
use os.Text.{Memory, store, copy_up, copy_down, memmove}

-- What stands at a after n bytes from src were moved to dst.
abbrev pub moved : ℕ → ℕ → ℕ → Memory → ℕ → ℕ
moved dst src n mem a = if leb dst a && ltb a (dst + n) then mem (src + (a - dst)) else mem a

-- One byte, then n more after it.
up_step :
    (n d s : ℕ) (mem : Memory) (a : ℕ)
    → (d ≤ s) ⊎ (s + suc n ≤ d)
    → moved (d + 1) (s + 1) n (store d (mem s) mem) a ≡ moved d s (suc n) mem a
up_step n d s mem a h = elim (Bool-cases (d == a)) [
  | inl e ↦ let same : s + (a - d) ≡ s = ground arith in let m = ap mem same in ground arith
  | inr e ↦
      let same : leb (d + 1) a && ltb a (d + 1 + n) ≡ true → s + 1 + (a - (d + 1)) ≡ s + (a - d) =
        (λ q. ground arith) in
      let m = (λ (q : leb (d + 1) a && ltb a (d + 1 + n) ≡ true). ap mem (same q)) in
      elim h [ inl l ↦ ground arith | inr l ↦ ground arith ]
]

copy_up-moved :
    (n d s : ℕ) (mem : Memory) (a : ℕ)
    → (d ≤ s) ⊎ (s + n ≤ d)
    → copy_up n d s mem a ≡ moved d s n mem a
unfolding copy_up
copy_up-moved zero d s mem a h = ground arith
copy_up-moved (suc n) d s mem a h =
    copy_up-moved n (d + 1) (s + 1) (store d (mem s) mem) a
      (elim h [ inl l ↦ inl (omega arith) | inr l ↦ inr (omega arith) ])
    ∙ up_step n d s mem a h

down_step :
    (n d s : ℕ) (mem : Memory) (a : ℕ)
    → s < d
    → moved d s n (store (d + n) (mem (s + n)) mem) a ≡ moved d s (suc n) mem a
down_step n d s mem a h = elim (Bool-cases (d + n == a)) [
  | inl e ↦ let same : s + (a - d) ≡ s + n = ground arith in let m = ap mem same in ground arith
  | inr e ↦ ground arith
]

copy_down-moved :
    (n d s p q : ℕ) (mem : Memory) (a : ℕ)
    → s < d
    → p ≡ d + n
    → q ≡ s + n
    → copy_down n p q mem a ≡ moved d s n mem a
unfolding copy_down
copy_down-moved zero d s p q mem a h e f = ground arith
copy_down-moved (suc n) d s p q mem a h e f =
    let e' : p - 1 ≡ d + n = omega arith in
    let f' : q - 1 ≡ s + n = omega arith in
    rw (e', f')
      (copy_down-moved n d s (d + n) (s + n) (store (d + n) (mem (s + n)) mem) a h refl refl
        ∙ down_step n d s mem a h)

-- memmove moves a block as it was before the call, also where the source and the destination
-- overlap either way, and changes no other byte.
pub memmove-moved :
    (dst src n : ℕ) (mem : Memory) (a : ℕ) → memmove dst src n mem a ≡ moved dst src n mem a
unfolding memmove
memmove-moved dst src n mem a = elim (Bool-cases (ltb src dst && ltb dst (src + n))) [
  | inl e ↦ rw e (copy_down-moved n dst src (dst + n) (src + n) mem a (ground arith) refl refl)
  | inr e ↦ rw e (copy_up-moved n dst src mem a (apart dst src n e))
]
  where
    apart :
        (dst src n : ℕ) → (ltb src dst && ltb dst (src + n)) ≡ false → (dst ≤ src) ⊎ (src + n ≤ dst)
    apart dst src n e = elim (dec_le dst src) [ yes l ↦ inl l | no g ↦ inr (ground arith) ]
