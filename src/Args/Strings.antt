-- ===== src/Args/Strings.antt =====
-- Strings that a system call accepts.
use os.Prelude.{
  ℕ, zero, suc, ◌+◌, ◌-◌, ◌<◌, ◌≡◌, ◌≢◌, refl, ap, ◌∙◌, inl, inr, Option, none, some, arith, ◌==◌,
  leb, Bool-cases,
}
use os.Args.{find_nul, fetchstr}

-- A string of length n at s: the first NUL from s on is n bytes further, before the end `stop`.
pub record IsString (mem : ℕ → ℕ) (stop s n : ℕ) : Type 0 where
  pub inside : s + n < stop
  pub ends : mem (s + n) ≡ 0
  pub before : (k : ℕ) → k < n → mem (s + k) ≢ 0

-- What an answer says: the length of the string at s, or that no NUL comes before the end.
abbrev pub Fetches : (ℕ → ℕ) → ℕ → ℕ → Option ℕ → Type 0
Fetches mem stop s none = (k : ℕ) → s + k < stop → mem (s + k) ≢ 0
Fetches mem stop s (some n) = IsString mem stop s n

-- The same, n bytes after the start.
abbrev Scans : (ℕ → ℕ) → ℕ → ℕ → ℕ → Option ℕ → Type 0
Scans mem stop s n none = (k : ℕ) → s + k < stop → mem (s + k) ≢ 0
Scans mem stop s n (some m) = (j : ℕ) × (m ≡ n + j) × IsString mem stop s j

here_not :
    (mem : ℕ → ℕ) (s k : ℕ)
    → mem s ≢ 0
    → ((j : ℕ) → suc j ≡ k → mem (s + 1 + j) ≢ 0)
    → mem (s + k) ≢ 0
here_not mem s zero h rest = λ e. h (ap mem (omega arith) ∙ e)
here_not mem s (suc j) h rest = λ e. rest j refl (ap mem (omega arith) ∙ e)

later-Scans :
    (mem : ℕ → ℕ) (stop s n : ℕ) (r : Option ℕ)
    → mem s ≢ 0
    → Scans mem stop (s + 1) (n + 1) r
    → Scans mem stop s n r
later-Scans mem stop s n none h all = λ k l. here_not mem s k h (λ j e. all j (omega arith))
later-Scans mem stop s n (some m) h (j, e, is) = (
  suc j,
  omega arith,
  record {
    inside = let i = is.inside in omega arith;
    ends = ap mem (omega arith) ∙ is.ends;
    before = λ k l. here_not mem s k h (λ i q. is.before i (omega arith));
  },
)

find_nul-Scans :
    (mem : ℕ → ℕ) (stop left s n : ℕ) → s + left ≡ stop → Scans mem stop s n (find_nul mem left s n)
unfolding find_nul
find_nul-Scans mem stop zero s n h = λ k l. absurd (omega arith)
find_nul-Scans mem stop (suc left) s n h = elim (Bool-cases (mem s == 0)) [
  | inl e ↦
      let place : s + 0 ≡ s = omega arith in
      let nul : mem s ≡ 0 = ground arith in
      rw e (
        0,
        omega arith,
        record {
          inside = omega arith;
          ends = ap mem place ∙ nul;
          before = λ k l. absurd (omega arith);
        },
      )
  | inr e ↦
      let rest = find_nul-Scans mem stop left (s + 1) (n + 1) (omega arith) in
      rw e (later-Scans mem stop s n (find_nul mem left (s + 1) (n + 1)) (ground arith) rest)
]

Scans-Fetches :
    (mem : ℕ → ℕ) (stop s : ℕ) (r : Option ℕ) → Scans mem stop s 0 r → Fetches mem stop s r
Scans-Fetches mem stop s none all = all
Scans-Fetches mem stop s (some m) (j, e, is) = let same : m ≡ j = omega arith in rw same is

-- fetchstr answers the length of the string at the address, whose bytes and NUL all lie in the
-- process, or -1 just if there is no NUL between the address and the end of the process.
pub fetchstr-Fetches : (mem : ℕ → ℕ) (sz addr : ℕ) → Fetches mem sz addr (fetchstr mem sz addr)
unfolding fetchstr
fetchstr-Fetches mem sz addr = elim (Bool-cases (leb sz addr)) [
  | inl e ↦ rw e (λ k l. absurd (ground arith))
  | inr e ↦ rw e (
      Scans-Fetches mem sz addr (find_nul mem (sz - addr) addr 0)
        (find_nul-Scans mem sz (sz - addr) addr 0 (ground arith)))
]
