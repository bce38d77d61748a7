-- ===== src/Text/Compare.antt =====
-- memcmp and strncmp: when they find two blocks or strings equal.
use os.Prelude.{
  ℕ, zero, suc, ◌+◌, ◌<◌, ◌≡◌, ◌≢◌, ◌↔◌, refl, ap, ◌∙◌, inl, inr, arith, ◌==◌, Bool-cases,
}
use os.Text.{Memory, minus, memcmp}

-- Every byte of the memory is one.
abbrev pub AreBytes : Memory → Type 0
AreBytes mem = (a : ℕ) → mem a < 256

abbrev pub SameBlock : ℕ → ℕ → ℕ → Memory → Type 0
SameBlock s1 s2 n mem = (k : ℕ) → k < n → mem (s1 + k) ≡ mem (s2 + k)

minus_zero : (a b : ℕ) → a < 256 → b < 256 → minus a b ≡ 0 → a ≡ b
minus_zero a b h k e = omega arith

SameBlock-suc :
    (s1 s2 n : ℕ) (mem : Memory)
    → mem s1 ≡ mem s2
    → SameBlock (s1 + 1) (s2 + 1) n mem
    → SameBlock s1 s2 (suc n) mem
SameBlock-suc s1 s2 n mem h all zero l = ap mem (omega arith) ∙ h ∙ ap mem (omega arith)
SameBlock-suc s1 s2 n mem h all (suc k) l =
    ap mem (omega arith) ∙ all k (omega arith) ∙ ap mem (omega arith)

SameBlock-tail :
    (s1 s2 n : ℕ) (mem : Memory) → SameBlock s1 s2 (suc n) mem → SameBlock (s1 + 1) (s2 + 1) n mem
SameBlock-tail s1 s2 n mem all k l =
    ap mem (omega arith) ∙ all (suc k) (omega arith) ∙ ap mem (omega arith)

SameBlock-head : (s1 s2 n : ℕ) (mem : Memory) → SameBlock s1 s2 (suc n) mem → mem s1 ≡ mem s2
SameBlock-head s1 s2 n mem all = ap mem (omega arith) ∙ all 0 (omega arith) ∙ ap mem (omega arith)

-- memcmp answers 0 just if the two blocks hold the same bytes.
pub memcmp-SameBlock :
    (n s1 s2 : ℕ) (mem : Memory) → AreBytes mem → (memcmp s1 s2 n mem ≡ 0) ↔ SameBlock s1 s2 n mem
unfolding memcmp
memcmp-SameBlock zero s1 s2 mem b = ((λ e k l. absurd (omega arith)), λ all. refl)
memcmp-SameBlock (suc n) s1 s2 mem b =
    let rest = memcmp-SameBlock n (s1 + 1) (s2 + 1) mem b in
    elim (Bool-cases (mem s1 == mem s2)) [
      | inl e ↦
          let same : mem s1 ≡ mem s2 = ground arith in
          rw e (
            (λ z. SameBlock-suc s1 s2 n mem same (rest.0 z)),
            λ all. rest.1 (SameBlock-tail s1 s2 n mem all),
          )
      | inr e ↦
          let differ : mem s1 ≢ mem s2 = ground arith in
          rw e (
            (λ z. absurd (differ (minus_zero (mem s1) (mem s2) (b s1) (b s2) z))),
            λ all. absurd (differ (SameBlock-head s1 s2 n mem all)),
          )
    ]
