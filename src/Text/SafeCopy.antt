-- ===== src/Text/SafeCopy.antt =====
-- safestrcpy: a copy that always ends with a NUL and stays within its buffer.
use mathlib.Core.Path.{subst}
use os.Prelude.{
  ℕ, zero, suc, ◌+◌, ◌-◌, ◌^◌, ◌≤◌, ◌<◌, ◌≡◌, ◌≢◌, refl, sym, ap, ◌∙◌, ◌⊎◌, inl, inr, arith, ◌==◌,
  Bool-cases, ==_of_eq, ==_of_ne, leb_of_lt,
}
use os.Text.{Memory, store, copy_string, safestrcpy}

-- The two buffers of n bytes have no byte in common.
abbrev pub Apart : ℕ → ℕ → ℕ → Type 0
Apart s t n = (t + n ≤ s) ⊎ (s + n ≤ t)

-- A string of length `len` was copied from t to the n bytes at s.
pub record Copied (s t n : ℕ) (mem mem' : Memory) : Type 0 where
  pub len : ℕ
  pub fits : len < n
  pub ends : mem' (s + len) ≡ 0
  pub same : (k : ℕ) → k < len → (mem' (s + k) ≡ mem (t + k)) × (mem (t + k) ≢ 0)
  pub whole : (suc len ≡ n) ⊎ (mem (t + len) ≡ 0)
  pub outside : (a : ℕ) → (a < s) ⊎ (s + n ≤ a) → mem' a ≡ mem a

cut_off : (s t : ℕ) (mem : Memory) → Copied s t 1 mem (store s 0 mem)
cut_off s t mem = record {
  len = 0;
  fits = omega arith;
  ends = rw (==_of_eq s (s + 0) (omega arith)) refl;
  same = λ k l. absurd (omega arith);
  whole = inl refl;
  outside =
      λ a o. rw (==_of_ne s a (λ e. elim o [ inl l ↦ omega arith | inr l ↦ omega arith ])) refl;
}

all-Copied :
    (k s t : ℕ) (mem : Memory)
    → mem t ≡ 0
    → Copied s t (suc (suc k)) mem (store (s + 1) 0 (store s (mem t) mem))
all-Copied k s t mem z = record {
  len = 0;
  fits = omega arith;
  ends = rw (==_of_ne (s + 1) (s + 0) (λ e. omega arith), ==_of_eq s (s + 0) (omega arith)) z;
  same = λ j l. absurd (omega arith);
  whole = inr (ap mem (omega arith) ∙ z);
  outside = λ a o.
      rw
        (
          ==_of_ne (s + 1) a (λ e. elim o [ inl l ↦ omega arith | inr l ↦ omega arith ]),
          ==_of_ne s a (λ e. elim o [ inl l ↦ omega arith | inr l ↦ omega arith ]),
        )
        refl;
}

-- What the first byte adds to a copy of the rest.
same-cons :
    (s t n : ℕ) (mem mem' : Memory)
    → mem t ≢ 0
    → Apart s t (suc n)
    → (c : Copied (s + 1) (t + 1) n (store s (mem t) mem) mem') → (k : ℕ) → k < suc c.len
    → (mem' (s + k) ≡ mem (t + k)) × (mem (t + k) ≢ 0)
same-cons s t n mem mem' z apart c zero l =
    let first = c.outside s (inl (omega arith)) in
    let stored : store s (mem t) mem s ≡ mem t = rw (==_of_eq s s refl) refl in
    (
      ap mem' (omega arith) ∙ first ∙ stored ∙ ap mem (omega arith),
      λ e. z (ap mem (omega arith) ∙ e),
    )
same-cons s t n mem mem' z apart c (suc j) below =
    let (e, f) = c.same j (omega arith) in
    let fits = c.fits in
    let away : s ≢ t + 1 + j = λ q. elim apart [ inl l ↦ omega arith | inr l ↦ omega arith ] in
    let old : store s (mem t) mem (t + 1 + j) ≡ mem (t + 1 + j) =
      rw (==_of_ne s (t + 1 + j) away) refl in
    let place : t + 1 + j ≡ t + suc j = omega arith in
    (ap mem' (omega arith) ∙ e ∙ old ∙ ap mem place, λ q. f (old ∙ ap mem place ∙ q))

Copied-cons :
    (s t n : ℕ) (mem mem' : Memory)
    → mem t ≢ 0
    → Apart s t (suc n)
    → Copied (s + 1) (t + 1) n (store s (mem t) mem) mem'
    → Copied s t (suc n) mem mem'
Copied-cons s t n mem mem' z apart c =
    let fits = c.fits in
    let place : t + 1 + c.len ≡ t + suc c.len = omega arith in
    let away : s ≢ t + 1 + c.len = λ q. elim apart [ inl l ↦ omega arith | inr l ↦ omega arith ] in
    record {
      len = suc c.len;
      fits = omega arith;
      ends = ap mem' (omega arith) ∙ c.ends;
      same = same-cons s t n mem mem' z apart c;
      whole = elim c.whole [
        | inl e ↦ inl (ap suc e)
        | inr e ↦ inr (ap mem (sym place) ∙ rw (==_of_ne s (t + 1 + c.len) away) at e)
      ];
      outside = λ a o.
          c.outside a (elim o [ inl l ↦ inl (omega arith) | inr l ↦ inr (omega arith) ])
          ∙ rw (==_of_ne s a (λ e. elim o [ inl l ↦ omega arith | inr l ↦ omega arith ])) refl;
    }

copy_string-Copied :
    (k s t : ℕ) (mem : Memory) → Apart s t (suc k) → Copied s t (suc k) mem (copy_string k s t mem)
unfolding copy_string
copy_string-Copied zero s t mem apart = cut_off s t mem
copy_string-Copied (suc k) s t mem apart = elim (Bool-cases (mem t == 0)) [
  | inl e ↦ let z : mem t ≡ 0 = ground arith in rw e (all-Copied k s t mem z)
  | inr e ↦
      let z : mem t ≢ 0 = ground arith in
      rw e (
        Copied-cons s t (suc k) mem (copy_string k (s + 1) (t + 1) (store s (mem t) mem)) z apart (
          copy_string-Copied k (s + 1) (t + 1) (store s (mem t) mem)
            (elim apart [ inl l ↦ inl (omega arith) | inr l ↦ inr (omega arith) ])))
]

-- With a buffer of at least one byte, apart from the source, safestrcpy leaves in it a string that
-- ends with a NUL within the buffer: the whole source string, or as much of it as fits. It changes
-- no byte outside the buffer.
pub safestrcpy-Copied :
    (s t n : ℕ) (mem : Memory)
    → 0 < n
    → n < 2 ^ 31
    → Apart s t n
    → Copied s t n mem (safestrcpy s t n mem)
unfolding safestrcpy
safestrcpy-Copied s t n mem h k apart =
    let e : suc (n - 1) ≡ n = omega arith in
    let c = copy_string-Copied (n - 1) s t mem (subst (Apart s t) (sym e) apart) in
    rw (==_of_ne n 0 (λ q. omega arith), leb_of_lt (2 ^ 31) n k)
      (subst (λ m. Copied s t m mem (copy_string (n - 1) s t mem)) e c)
