-- ===== src/Log/Install.antt =====
-- The states that a transaction passes through on the disk, and what install_trans does to them.
use os.Prelude.{
  ℕ, zero, suc, ◌+◌, ◌-◌, ◌≤◌, ◌<◌, ◌≡◌, ◌≢◌, ◌⊎◌, inl, inr, List, arith, get_or, length,
}
use native.Mathlib.Decide.{ℕ_discrete}
use os.Log.{Machine, Log, Block, bread, install_trans, logsize}
use os.Log.Copies.{copies_frame, copies_all, power-copies, Agrees, copies-Agrees}

-- Words in a sector.
abbrev pub words : ℕ
words = 128

-- lh.sector[t]
abbrev pub target : Log → ℕ → ℕ
target log t = get_or log.sector t 0

-- The targets are `n` distinct sectors before the log.
pub record Placed (log : Log) : Type 0 where
  pub fits : log.n ≤ logsize
  pub before : (t : ℕ) → t < log.n → target log t < log.start
  pub distinct : (s t : ℕ) → s < t → t < log.n → target log s ≢ target log t

-- No transaction is committed on the disk, and the sectors before the log are as `f` says.
pub record Settled (start : ℕ) (f : ℕ → Block) (d : ℕ → Block) : Type 0 where
  pub clean : get_or (d start) 0 0 ≡ 0
  pub len : length (d start) ≡ words
  pub home : (a : ℕ) → a < start → d a ≡ f a

abbrev pub Untouched : Log → ℕ → Type 0
Untouched log a = (t : ℕ) → t < log.n → a ≢ target log t

-- The transaction `log` is committed on the disk, and its blocks stand in the log.
pub record Pending (log : Log) (f : ℕ → Block) (d : ℕ → Block) : Type 0 where
  pub head_n : get_or (d log.start) 0 0 ≡ log.n
  pub head_sector : (t : ℕ) → t < log.n → get_or (d log.start) (t + 1) 0 ≡ target log t
  pub len : length (d log.start) ≡ words
  pub blocks : (t : ℕ) → t < log.n → d (log.start + t + 1) ≡ f (target log t)
  pub home : (a : ℕ) → a < log.start → Untouched log a → d a ≡ f a

pub find_target :
    (sector : List ℕ) (n a : ℕ)
    → ((t : ℕ) × (t < n) × (a ≡ get_or sector t 0)) ⊎ ((t : ℕ) → t < n → a ≢ get_or sector t 0)
find_target sector zero a = inr (λ t h. absurd (omega arith))
find_target sector (suc n) a = elim (find_target sector n a) [
  | inl (t, h, e) ↦ inl (t, omega arith, e)
  | inr none_below ↦ elim (ℕ_discrete a (get_or sector n 0)) [
    | yes e ↦ inl (n, omega arith, e)
    | no ne ↦
        inr
          (λ t h. elim (ℕ_discrete t n) [ yes e ↦ rw e ne | no lower ↦ none_below t (omega arith) ])
  ]
]

module _ (log : Log) (p : Placed log) (m : Machine) where
  -- install_trans writes only targets.
  pub install_frame : (a : ℕ) → Untouched log a → (install_trans log m).disk a ≡ m.disk a
  unfolding install_trans
  install_frame a h =
      (copies_frame (λ t. log.start + t + 1) (λ t. target log t) log.n 0 m a
        (λ t _ q. h t (omega arith))).0

  pub Untouched-log : (a : ℕ) → log.start ≤ a → Untouched log a
  Untouched-log a h t k e = absurd (omega (arith, p.before t k))

  -- With power for all of it, install_trans copies every block home.
  pub install_all :
      log.n ≤ m.power
      → (t : ℕ) → t < log.n
      → (install_trans log m).disk (target log t) ≡ bread m (log.start + t + 1)
  unfolding install_trans
  install_all h t k =
      copies_all (λ t. log.start + t + 1) (λ t. target log t) log.n 0 m h
        (λ s u _ _ _ q e. absurd (omega (arith, p.before u (omega arith))))
        (λ s u _ l q. p.distinct s u l (omega arith)) t (omega arith) (omega arith)

  pub power-install : (install_trans log m).power ≡ m.power - log.n
  unfolding install_trans
  power-install = power-copies (λ t. log.start + t + 1) (λ t. target log t) log.n 0 m

  pub install_Agrees : (a : ℕ) → Agrees m a → Agrees (install_trans log m) a
  unfolding install_trans
  install_Agrees a h = copies-Agrees (λ t. log.start + t + 1) (λ t. target log t) log.n 0 m a h
