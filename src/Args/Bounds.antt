-- ===== src/Args/Bounds.antt =====
-- Pointers that a system call accepts.
use os.Prelude.{
  ℕ, ◌+◌, ◌-◌, ◌*◌, ◌%◌, ◌^◌, ◌≤◌, ◌<◌, ◌≡◌, refl, sym, ◌∙◌, inl, inr, ◌||◌, Option, none, some,
  arith, ltb, leb, ◌>>=◌, some_inj, none≢some, Bool-cases, leb_of_lt, ltb_of_le, ◌↔◌,
}
use os.Args.{word, fetchint, argint, check_ptr, argptr}

-- Where the n-th argument stands.
abbrev pub arg_at : ℕ → ℕ → ℕ
arg_at esp n = (esp + 4 + 4 * n) % 2 ^ 32

-- The argument lies in the process, and so does the block of `size` bytes that it points to.
pub record InBounds (mem : ℕ → ℕ) (sz esp n size i : ℕ) : Type 0 where
  pub argument : arg_at esp n + 4 ≤ sz
  pub value : i ≡ word mem (arg_at esp n)
  pub starts : i < sz
  pub ends : i + size ≤ sz

fetchint-some :
    (mem : ℕ → ℕ) (sz addr i : ℕ)
    → sz < 2 ^ 31
    → fetchint mem sz addr ≡ some i
    → (addr + 4 ≤ sz) × (i ≡ word mem addr)
unfolding fetchint
fetchint-some mem sz addr i h e = elim (Bool-cases (leb sz addr || ltb sz ((addr + 4) % 2 ^ 32))) [
  | inl b ↦ absurd (none≢some (rw b at e))
  | inr b ↦ (ground arith, sym (some_inj (rw b at e)))
]

fetchint_inside :
    (mem : ℕ → ℕ) (sz addr : ℕ)
    → sz < 2 ^ 31
    → addr + 4 ≤ sz
    → fetchint mem sz addr ≡ some (word mem addr)
unfolding fetchint
fetchint_inside mem sz addr h k =
    let e : (addr + 4) % 2 ^ 32 ≤ sz = omega arith in
    rw (leb_of_lt sz addr (omega arith), ltb_of_le sz ((addr + 4) % 2 ^ 32) e) refl

check_ptr-some :
    (sz size i j : ℕ)
    → sz < 2 ^ 31
    → size < 2 ^ 31
    → check_ptr sz size j ≡ some i
    → (i ≡ j) × (i < sz) × (i + size ≤ sz)
unfolding check_ptr
check_ptr-some sz size i j h k e = elim (Bool-cases (leb sz j || ltb sz ((j + size) % 2 ^ 32))) [
  | inl b ↦ absurd (none≢some (rw b at e))
  | inr b ↦ let same = some_inj (rw b at e) in (sym same, ground arith, ground arith)
]

check_ptr_inside :
    (sz size i : ℕ) → sz < 2 ^ 31 → i < sz → (i + size) % 2 ^ 32 ≤ sz → check_ptr sz size i ≡ some i
unfolding check_ptr
check_ptr_inside sz size i h k l = rw (leb_of_lt sz i k, ltb_of_le sz ((i + size) % 2 ^ 32) l) refl

bind-some :
    (o : Option ℕ) (f : ℕ → Option ℕ) (i : ℕ)
    → (o >>= f) ≡ some i
    → (j : ℕ) × (o ≡ some j) × (f j ≡ some i)
bind-some none f i e = absurd (none≢some e)
bind-some (some j) f i e = (j, refl, e)

argptr_sound :
    (mem : ℕ → ℕ) (sz esp n size i : ℕ)
    → sz < 2 ^ 31
    → size < 2 ^ 31
    → argptr mem sz esp n size ≡ some i
    → InBounds mem sz esp n size i
unfolding argptr argint
argptr_sound mem sz esp n size i h k e =
    let (j, got, ok) = bind-some (argint mem sz esp n) (check_ptr sz size) i e in
    let (at, value) = fetchint-some mem sz (arg_at esp n) j h got in
    let (same, starts, ends) = check_ptr-some sz size i j h k ok in
    record { argument = at; value = same ∙ value; starts = starts; ends = ends }

argptr_accepts :
    (mem : ℕ → ℕ) (sz esp n size i : ℕ)
    → sz < 2 ^ 31
    → arg_at esp n + 4 ≤ sz
    → word mem (arg_at esp n) ≡ i
    → i < sz
    → (i + size) % 2 ^ 32 ≤ sz
    → argptr mem sz esp n size ≡ some i
unfolding argptr argint
argptr_accepts mem sz esp n size i h at value k l =
    rw (fetchint_inside mem sz (arg_at esp n) h at, value) (check_ptr_inside sz size i h k l)

-- For a process below KERNBASE and a size that is not negative, argptr accepts a pointer just if
-- the argument itself lies in the process, and the pointer and the whole block behind it too.
pub argptr-InBounds :
    (mem : ℕ → ℕ) (sz esp n size i : ℕ)
    → sz < 2 ^ 31
    → size < 2 ^ 31
    → (argptr mem sz esp n size ≡ some i) ↔ InBounds mem sz esp n size i
argptr-InBounds mem sz esp n size i h k = (
  argptr_sound mem sz esp n size i h k,
  λ b.
      argptr_accepts mem sz esp n size i h b.argument (sym b.value) b.starts
        (let e = b.ends in omega arith),
)

-- argptr accepts a negative size, -k, for any pointer into the process from address k on: the sum
-- of the two wraps around below the end of the process.
pub argptr_negative :
    (mem : ℕ → ℕ) (sz esp n k i : ℕ)
    → sz < 2 ^ 31
    → arg_at esp n + 4 ≤ sz
    → word mem (arg_at esp n) ≡ i
    → i < sz
    → 0 < k
    → k ≤ i
    → argptr mem sz esp n (2 ^ 32 - k) ≡ some i
argptr_negative mem sz esp n k i h at value l p q =
    argptr_accepts mem sz esp n (2 ^ 32 - k) i h at value l (omega arith)
