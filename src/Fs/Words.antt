-- ===== src/Fs/Words.antt =====
-- Numbers in a block after one of them was stored.
use os.Prelude.{
  ℕ, ◌+◌, ◌*◌, ◌/◌, ◌%◌, ◌^◌, ◌<◌, ◌≤◌, ◌⊎◌, inl, inr, ◌≡◌, ◌≢◌, refl, arith, ◌==◌, if◌then◌else◌,
  ==_of_ne, ==_of_eq,
}
use native.Mathlib.Decide.{dec_lt, ℕ_discrete}
use os.Fs.Disk.{Block, put_byte, word, put_word}

put_byte_ne : (at byte i : ℕ) (bytes : Block) → at ≢ i → put_byte at byte bytes i ≡ bytes i
put_byte_ne at byte i bytes h = rw (==_of_ne at i h) refl

-- A word is stored in four bytes.
pub put_word_other :
    (at w i : ℕ) (bytes : Block) → (i < at) ⊎ (at + 4 ≤ i) → put_word at w bytes i ≡ bytes i
put_word_other at w i bytes h = ground arith

pub put_word_self : (at w : ℕ) (bytes : Block) → w < 2 ^ 32 → word at (put_word at w bytes) ≡ w
put_word_self at w bytes h =
    let b0 : put_word at w bytes at ≡ w % 256 = ground arith in
    let b1 : put_word at w bytes (at + 1) ≡ w / 256 % 256 = ground arith in
    let b2 : put_word at w bytes (at + 2) ≡ w / 65536 % 256 = ground arith in
    let b3 : put_word at w bytes (at + 3) ≡ w / 16777216 % 256 = ground arith in
    rw (b0, b1, b2, b3) (omega arith)

pub word-put_word :
    (i j w : ℕ) (bytes : Block)
    → w < 2 ^ 32
    → word (4 * i) (put_word (4 * j) w bytes) ≡ (if j == i then w else word (4 * i) bytes)
word-put_word i j w bytes h = elim (ℕ_discrete j i) [
  | yes e ↦ rw (==_of_eq j i e, e) (put_word_self (4 * i) w bytes h)
  | no e ↦
      let o0 =
        put_word_other (4 * j) w (4 * i) bytes (apart i j (4 * i) e (omega arith) (omega arith)) in
      let o1 =
        put_word_other (4 * j) w (4 * i + 1) bytes
          (apart i j (4 * i + 1) e (omega arith) (omega arith)) in
      let o2 =
        put_word_other (4 * j) w (4 * i + 2) bytes
          (apart i j (4 * i + 2) e (omega arith) (omega arith)) in
      let o3 =
        put_word_other (4 * j) w (4 * i + 3) bytes
          (apart i j (4 * i + 3) e (omega arith) (omega arith)) in
      rw (==_of_ne j i e) (omega arith)
]
  where
    apart : (i j x : ℕ) → j ≢ i → 4 * i ≤ x → x < 4 * i + 4 → (x < 4 * j) ⊎ (4 * j + 4 ≤ x)
    apart i j x e p l = elim (dec_lt x (4 * j)) [ yes q ↦ inl q | no q ↦ inr (omega arith) ]
