-- ===== src/Text.antt =====
-- string.c: the kernel's functions on bytes and strings, over a memory of bytes by address. Blocks do
-- not run past the end of the address space.
pub mod Move
pub mod Compare
pub mod SafeCopy
mod Tests
use os.Prelude.{
  ℕ, zero, suc, ◌+◌, ◌-◌, ◌%◌, ◌^◌, Bool, true, false, not, ◌&&◌, ◌||◌, ◌==◌, ltb, leb,
  if◌then◌else◌,
}

abbrev pub Memory : Type 0
Memory = ℕ → ℕ

-- *a = b
abbrev pub store : ℕ → ℕ → Memory → Memory
store a b mem i = if a == i then b else mem i

-- stosb, and stosl with the byte in all four places.
pub fill_bytes : ℕ → ℕ → ℕ → Memory → Memory
fill_bytes zero dst b mem = mem
fill_bytes (suc n) dst b mem = fill_bytes n (dst + 1) b (store dst b mem)

-- c is cut to a byte by both string instructions; n words of stosl are 4 * n bytes.
pub memset : ℕ → ℕ → ℕ → Memory → Memory
memset dst c n mem = fill_bytes n dst (c % 256) mem

-- a - b of two bytes, as the bits of an int.
abbrev pub minus : ℕ → ℕ → ℕ
minus a b = (a + 2 ^ 32 - b) % 2 ^ 32

pub memcmp : ℕ → ℕ → ℕ → Memory → ℕ
memcmp s1 s2 zero mem = 0
memcmp s1 s2 (suc n) mem =
    let rest = memcmp (s1 + 1) (s2 + 1) n mem in
    if mem s1 == mem s2 then rest else minus (mem s1) (mem s2)

-- while(n-- > 0) *d++ = *s++;
pub copy_up : ℕ → ℕ → ℕ → Memory → Memory
copy_up zero d s mem = mem
copy_up (suc n) d s mem = copy_up n (d + 1) (s + 1) (store d (mem s) mem)

-- while(n-- > 0) *--d = *--s;
pub copy_down : ℕ → ℕ → ℕ → Memory → Memory
copy_down zero d s mem = mem
copy_down (suc n) d s mem = copy_down n (d - 1) (s - 1) (store (d - 1) (mem (s - 1)) mem)

pub memmove : ℕ → ℕ → ℕ → Memory → Memory
memmove dst src n mem =
    if ltb src dst && ltb dst (src + n)
    then copy_down n (dst + n) (src + n) mem
    else copy_up n dst src mem

pub memcpy : ℕ → ℕ → ℕ → Memory → Memory
memcpy dst src n mem = memmove dst src n mem

pub strncmp : ℕ → ℕ → ℕ → Memory → ℕ
strncmp p q zero mem = 0
strncmp p q (suc n) mem =
    let rest = strncmp (p + 1) (q + 1) n mem in
    if not (mem p == 0) && mem p == mem q then rest else minus (mem p) (mem q)

-- The first loop of strncpy, whose end passes on to the second, which writes NULs.
pub strncpy : ℕ → ℕ → ℕ → Memory → Memory
strncpy s t zero mem = mem
strncpy s t (suc n) mem =
    let copied = store s (mem t) mem in
    let rest = strncpy (s + 1) (t + 1) n copied in
    if mem t == 0 then fill_bytes n (s + 1) 0 copied else rest

-- The loop of safestrcpy, with k more bytes to copy, and the NUL after it.
pub copy_string : ℕ → ℕ → ℕ → Memory → Memory
copy_string zero s t mem = store s 0 mem
copy_string (suc k) s t mem =
    let copied = store s (mem t) mem in
    let rest = copy_string k (s + 1) (t + 1) copied in
    if mem t == 0 then store (s + 1) 0 copied else rest

-- n ≤ 0 changes nothing; n is the bits of an int.
pub safestrcpy : ℕ → ℕ → ℕ → Memory → Memory
safestrcpy s t n mem = if n == 0 || leb (2 ^ 31) n then mem else copy_string (n - 1) s t mem
