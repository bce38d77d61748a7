-- ===== src/Fs/Bitmap/Bits.antt =====
-- The bits of a byte, and of a block of the bitmap, after one of them was set or cleared.
use os.Prelude.{
  ℕ, zero, suc, ◌+◌, ◌*◌, ◌/◌, ◌%◌, ◌≡◌, ap, arith, ◌==◌, if◌then◌else◌, Bool-cases, inl, inr,
}
use os.Fs.Disk.{Block, put_byte}
use os.Fs.Bitmap.{bit, set_bit, clear_bit, marked, mark, unmark}

bit-set_bit : (byte k j : ℕ) → bit (set_bit byte k) j ≡ (if k == j then 1 else bit byte j)
unfolding bit set_bit
bit-set_bit byte zero zero = ground arith
bit-set_bit byte zero (suc j) =
    let half : (byte / 2 * 2 + 1) / 2 ≡ byte / 2 = omega arith in
    let e = ap (λ b. bit b j) half in ground arith
bit-set_bit byte (suc k) zero = ground arith
bit-set_bit byte (suc k) (suc j) =
    let half : (set_bit (byte / 2) k * 2 + byte % 2) / 2 ≡ set_bit (byte / 2) k = omega arith in
    let e = ap (λ b. bit b j) half in let h = bit-set_bit (byte / 2) k j in ground arith

bit-clear_bit : (byte k j : ℕ) → bit (clear_bit byte k) j ≡ (if k == j then 0 else bit byte j)
unfolding bit clear_bit
bit-clear_bit byte zero zero = ground arith
bit-clear_bit byte zero (suc j) =
    let half : byte / 2 * 2 / 2 ≡ byte / 2 = omega arith in
    let e = ap (λ b. bit b j) half in ground arith
bit-clear_bit byte (suc k) zero = ground arith
bit-clear_bit byte (suc k) (suc j) =
    let half : (clear_bit (byte / 2) k * 2 + byte % 2) / 2 ≡ clear_bit (byte / 2) k = omega arith in
    let e = ap (λ b. bit b j) half in let h = bit-clear_bit (byte / 2) k j in ground arith

-- A bit of the block after a byte of it was given the bit `v` at one place.
bit_of_block :
    (bytes : Block) (byte v i j : ℕ)
    → ((k : ℕ) → bit byte k ≡ (if i % 8 == k then v else bit (bytes (i / 8)) k))
    → bit (put_byte (i / 8) byte bytes (j / 8)) (j % 8)
      ≡ (if i == j then v else bit (bytes (j / 8)) (j % 8))
bit_of_block bytes byte v i j h = elim (Bool-cases (i / 8 == j / 8)) [
  | inl e ↦
      let same : i / 8 ≡ j / 8 = ground arith in
      let d = ap (λ k. bit (bytes k) (j % 8)) same in let b = h (j % 8) in ground arith
  | inr e ↦ ground arith
]

pub marked-mark :
    (bytes : Block) (i j : ℕ) → marked (mark i bytes) j ≡ (if i == j then 1 else marked bytes j)
marked-mark bytes i j =
    bit_of_block bytes (set_bit (bytes (i / 8)) (i % 8)) 1 i j (bit-set_bit (bytes (i / 8)) (i % 8))

pub marked-unmark :
    (bytes : Block) (i j : ℕ) → marked (unmark i bytes) j ≡ (if i == j then 0 else marked bytes j)
marked-unmark bytes i j =
    bit_of_block bytes (clear_bit (bytes (i / 8)) (i % 8)) 0 i j
      (bit-clear_bit (bytes (i / 8)) (i % 8))
