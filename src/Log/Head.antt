-- ===== src/Log/Head.antt =====
-- The log header: what write_head puts into a block, read_head takes out of it.
use os.Prelude.{
  ℕ, zero, suc, ◌+◌, ◌≤◌, ◌<◌, ◌≡◌, ◌≢◌, refl, sym, ◌∙◌, List, arith, for_range, get_or, set,
  length, length-set, get_or-set_self, get_or-set_ne,
}
use native.Mathlib.Decide.{ℕ_discrete}
use os.Log.{Block, encode_head}

-- A loop that stores `val t` at index `idx t`.
module _ (idx val : ℕ → ℕ) where
  abbrev pub fill : ℕ → ℕ → List ℕ → List ℕ
  fill n i s = for_range n i (λ t s. set s (idx t) (val t)) s

  pub length-fill : (n i : ℕ) (s : List ℕ) → length (fill n i s) ≡ length s
  unfolding for_range
  length-fill zero i s = refl
  length-fill (suc n) i s =
      length-fill n (i + 1) (set s (idx i) (val i)) ∙ length-set s (idx i) (val i)

  pub fill_frame :
      (n i : ℕ) (s : List ℕ) (j : ℕ)
      → ((t : ℕ) → i ≤ t → t < i + n → idx t ≢ j)
      → get_or (fill n i s) j 0 ≡ get_or s j 0
  unfolding for_range
  fill_frame zero i s j h = refl
  fill_frame (suc n) i s j h =
      fill_frame n (i + 1) (set s (idx i) (val i)) j (λ t p q. h t (omega arith) (omega arith))
      ∙ get_or-set_ne s (idx i) j (val i) 0 (h i (omega arith) (omega arith))

  pub fill_all :
      (n i : ℕ) (s : List ℕ)
      → ((t u : ℕ) → t < u → idx t ≢ idx u)
      → ((t : ℕ) → i ≤ t → t < i + n → idx t < length s)
      → (t : ℕ) → i ≤ t
      → t < i + n
      → get_or (fill n i s) (idx t) 0 ≡ val t
  unfolding for_range
  fill_all zero i s inj room t h k = absurd (omega arith)
  fill_all (suc n) i s inj room t h k = elim (ℕ_discrete i t) [
    | yes e ↦ rw (← e) (
        fill_frame n (i + 1) (set s (idx i) (val i)) (idx i)
          (λ u q r w. inj i u (omega arith) (sym w))
        ∙ get_or-set_self s (idx i) (val i) 0 (room i (omega arith) (omega arith)))
    | no ne ↦
        fill_all n (i + 1) (set s (idx i) (val i)) inj
          (λ u q r. rw (length-set s (idx i) (val i)) (room u (omega arith) (omega arith))) t
          (omega arith) (omega arith)
  ]

pub length-encode_head :
    (n : ℕ) (sector : List ℕ) (b : Block) → length (encode_head n sector b) ≡ length b
unfolding encode_head
length-encode_head n sector b =
    length-fill (λ i. i + 1) (λ i. get_or sector i 0) n 0 (set b 0 n) ∙ length-set b 0 n

-- The first word is n.
pub encode_head-n :
    (n : ℕ) (sector : List ℕ) (b : Block) → 0 < length b → get_or (encode_head n sector b) 0 0 ≡ n
unfolding encode_head
encode_head-n n sector b h =
    fill_frame (λ i. i + 1) (λ i. get_or sector i 0) n 0 (set b 0 n) 0 (λ t p q. omega arith)
    ∙ get_or-set_self b 0 n 0 h

-- The words after it are the sector numbers.
pub encode_head-sector :
    (n : ℕ) (sector : List ℕ) (b : Block) (i : ℕ)
    → n < length b
    → i < n
    → get_or (encode_head n sector b) (i + 1) 0 ≡ get_or sector i 0
unfolding encode_head
encode_head-sector n sector b i h k =
    fill_all (λ i. i + 1) (λ i. get_or sector i 0) n 0 (set b 0 n) (λ t u l. omega arith)
      (λ t p q. omega (arith, length-set b 0 n)) i (omega arith) (omega arith)
