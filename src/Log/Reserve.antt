-- ===== src/Log/Reserve.antt =====
-- The space that begin_op reserves: operations in any interleaving never overflow the log.
pub mod Steps
pub mod NoPanic
pub mod Overrun
use os.Prelude.{
  ℕ, suc, ◌+◌, ◌-◌, ◌*◌, ◌≤◌, ◌<◌, ◌≡◌, ◌≢◌, refl, sym, ap, ◌∙◌, inl, inr, List, [], ◌∷◌, ◌++◌,
  none, some, arith, length, ltb, if◌then◌else◌, ◌==◌, true, false, Bool-cases,
}
use native.Mathlib.Numerals.{add-one}
use os.Log.{
  Machine, Log, Block, begin_op, leave_op, finish_op, commit, log_write, panicked, stays, commits,
  logsize, maxopblocks, no_room,
}
use os.Log.Write.{log_write-Logs, log_write-some, panics}

-- The log with the operations under way, each with the number of blocks that it may still log.
pub record Sys : Type 0 where
  pub log : Log
  pub machine : Machine
  pub credits : List ℕ

abbrev pub sum : List ℕ → ℕ
sum [] = 0
sum (c ∷ cs) = c + sum cs

abbrev pub AllLe : ℕ → List ℕ → Type 0
AllLe b [] = Unit {0}
AllLe b (c ∷ cs) = (c ≤ b) × AllLe b cs

-- A step: an operation begins, logs a block that it has credit for, ends, or commits for all.
pub data Move (s : Sys) : Sys → Type 0 where
  begins :
      (log' : Log)
      → begin_op s.log ≡ some log'
      → Move s (record s { log = log'; credits = maxopblocks ∷ s.credits })
  logs :
      (front back : List ℕ) (c a : ℕ) (b : Block) (log' : Log) (m' : Machine)
      → s.credits ≡ front ++ (suc c ∷ back)
      → log_write s.log s.machine a b ≡ some (log', m')
      → Move s (record { log = log'; machine = m'; credits = front ++ (c ∷ back) })
  ends :
      (front back : List ℕ) (c : ℕ) (log' : Log)
      → s.credits ≡ front ++ (c ∷ back)
      → leave_op s.log ≡ stays log'
      → Move s (record s { log = log'; credits = front ++ back })
  ends_last :
      (front back : List ℕ) (c : ℕ) (log' : Log)
      → s.credits ≡ front ++ (c ∷ back)
      → leave_op s.log ≡ commits log'
      → Move s (record s { log = log'; credits = front ++ back })
  finishes :
      s.log.committing ≡ true
      → Move s (record s {
        log = (finish_op s.log s.machine).0;
        machine = (finish_op s.log s.machine).1;
      })

pub data Reach (s : Sys) : Sys → Type 0 where
  here : Reach s s
  next : {t u : Sys} → Reach s t → Move t u → Reach s u

-- What is logged and what is promised fit in the log, and nobody is at work during a commit.
pub record Reserved (s : Sys) : Type 0 where
  pub counted : s.log.outstanding ≡ length s.credits
  pub few : length s.credits ≤ 3
  pub small : AllLe maxopblocks s.credits
  pub fits : s.log.n + sum s.credits ≤ logsize
  pub alone : s.log.committing ≡ true → s.credits ≡ []
  pub array : length s.log.sector ≡ logsize

pub sum-le : (b : ℕ) (cs : List ℕ) → AllLe maxopblocks cs → sum cs ≤ length cs * maxopblocks
sum-le b [] h = omega arith
sum-le b (c ∷ cs) h = omega (arith, sum-le b cs h.1)

pub sum-middle : (front back : List ℕ) (c : ℕ) → sum (front ++ (c ∷ back)) ≡ sum (front ++ back) + c
sum-middle [] back c = omega arith
sum-middle (x ∷ front) back c = omega (arith, sum-middle front back c)

pub length-middle :
    (front back : List ℕ) (c : ℕ) → length (front ++ (c ∷ back)) ≡ length (front ++ back) + 1
length-middle [] back c = omega arith
length-middle (x ∷ front) back c = omega (arith, length-middle front back c)

pub AllLe-middle :
    (b : ℕ) (front back : List ℕ) (c : ℕ)
    → AllLe b (front ++ (c ∷ back))
    → AllLe b (front ++ back) × (c ≤ b)
AllLe-middle b [] back c h = (h.1, h.0)
AllLe-middle b (x ∷ front) back c h = let r = AllLe-middle b front back c h.1 in ((h.0, r.0), r.1)

pub AllLe-put :
    (b : ℕ) (front back : List ℕ) (c : ℕ)
    → AllLe b (front ++ back)
    → c ≤ b
    → AllLe b (front ++ (c ∷ back))
AllLe-put b [] back c h k = (k, h)
AllLe-put b (x ∷ front) back c h k = (h.0, AllLe-put b front back c h.1 k)
