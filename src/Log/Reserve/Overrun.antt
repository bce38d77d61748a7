-- ===== src/Log/Reserve/Overrun.antt =====
-- How operations within their reservation fill the log that mkfs makes.
use os.Prelude.{
  ℕ, zero, suc, ◌+◌, ◌-◌, ◌≤◌, ◌<◌, ◌≡◌, refl, sym, ap, ◌∙◌, inl, inr, List, [], ◌∷◌, ◌++◌, none,
  some, arith, length, true, false,
}
use os.Log.{Log, Block, begin_op, log_write, logsize}
use os.Log.Install.{target}
use os.Log.Write.{Logs, log_write-Logs, panics}
use os.Log.Reserve.{Sys, Reach, here, next, begins, logs, Reserved}
use os.Log.Reserve.NoPanic.{Reach-Reserved, log_write_mkfs_panics}
use os.Mkfs.{nlog}

-- Three operations are under way, and the sectors logged are those that f counts up.
record Filled (f : ℕ → ℕ) (s : Sys) : Type 0 where
  size : s.log.size ≡ nlog
  array : length s.log.sector ≡ logsize
  outstanding : s.log.outstanding ≡ 3
  targets : (j : ℕ) → j < s.log.n → target s.log j ≡ f j

begin_op_free :
    (log : Log) (k : ℕ)
    → log.committing ≡ false
    → log.outstanding ≡ k
    → log.n ≡ 0
    → k < 3
    → begin_op log ≡ some (record log { outstanding = k + 1 })
unfolding begin_op
begin_op_free log k c o n l = ground arith

has_room :
    (log : Log)
    → log.size ≡ nlog
    → log.outstanding ≡ 3
    → log.n < logsize - 1
    → panics log ≡ true
    → ⊥
has_room log z o l p = ground arith

-- A sector that is not in the log yet is added at its end.
added :
    (f : ℕ → ℕ) (s : Sys) (b : Block) (r : Log) (m : _)
    → ((i j : ℕ) → f i ≡ f j → i ≡ j)
    → Filled f s
    → Logs s.log s.machine (f s.log.n) b r m
    → (r.n ≡ s.log.n + 1) × ((j : ℕ) → j < r.n → target r j ≡ f j)
added f s b r m once h l =
    let count : r.n ≡ s.log.n + 1 = elim l.room [
      | inr e ↦ e
      | inl e ↦
          let (j, q, t) = l.new in
          let q' : j < s.log.n = omega arith in
          absurd (let x = once j s.log.n (sym (l.old j q' ∙ h.targets j q') ∙ t) in omega arith)
    ] in
    (
      count,
      λ j q. elim (l.fresh j q) [
        | inl p ↦ l.old j p ∙ h.targets j p
        | inr (e, t, _) ↦ t ∙ ap f (sym e)
      ],
    )

-- An operation logs k blocks.
fill :
    (f : ℕ → ℕ) (b : Block) (s0 : Sys) (k c m : ℕ) (front back : List ℕ) (s : Sys)
    → ((i j : ℕ) → f i ≡ f j → i ≡ j)
    → Reach s0 s
    → Filled f s
    → m ≡ k + c
    → s.credits ≡ front ++ (m ∷ back)
    → s.log.n + k ≤ logsize - 1
    → (t : Sys) × Reach s0 t
      × Filled f t
      × (t.credits ≡ front ++ (c ∷ back))
      × (t.log.n ≡ s.log.n + k)
fill f b s0 zero c m front back s once r h e q l =
    let e' : m ≡ c = omega arith in (s, r, h, q ∙ ap (λ x. front ++ (x ∷ back)) e', omega arith)
fill f b s0 (suc k) c m front back s once r h e q l =
    let (t, r1, h1, q1, n1) =
      fill f b s0 k (suc c) m front back s once r h (omega arith) q (omega arith) in
    elim (log_write-Logs t.log t.machine (f t.log.n) b h1.array) [
      | inl p ↦ absurd (has_room t.log h1.size h1.outstanding (omega arith) p.0)
      | inr (x, _, runs, w) ↦
          let (count, targets) = added f t b x.0 x.1 once h1 w in
          let u : Sys = record { log = x.0; machine = x.1; credits = front ++ (c ∷ back) } in
          (
            u,
            next r1 (logs front back c (f t.log.n) b x.0 x.1 q1 runs),
            record {
              size = w.size ∙ h1.size;
              array = w.array ∙ h1.array;
              outstanding = w.outstanding ∙ h1.outstanding;
              targets = targets;
            },
            refl,
            omega arith,
          )
    ]

-- Three operations begin while nothing is logged.
begun :
    (s : Sys)
    → s.log.committing ≡ false
    → s.log.outstanding ≡ 0
    → s.log.n ≡ 0
    → s.credits ≡ []
    → (t : Sys) × Reach s t
      × (t.log ≡ record s.log { outstanding = 3 })
      × (t.credits ≡ 10 ∷ 10 ∷ 10 ∷ [])
begun s c o n e =
    let l1 : Log = record s.log { outstanding = 1 } in
    let l2 : Log = record s.log { outstanding = 2 } in
    let l3 : Log = record s.log { outstanding = 3 } in
    let cs = s.credits in
    (
      record s { log = l3; credits = 10 ∷ 10 ∷ 10 ∷ cs },
      next
          (next (next here (begins l1 (begin_op_free s.log 0 c o n (omega arith))))
            (begins l2 (begin_op_free l1 1 c refl n (omega arith))))
          (begins l3 (begin_op_free l2 2 c refl n (omega arith))),
      refl,
      ap (λ x. 10 ∷ 10 ∷ 10 ∷ x) e,
    )

-- The log of an image by mkfs has LOGSIZE blocks, its header included, and begin_op reserves as if
-- it had one more. From any state with such a log where nothing is logged or under way, three
-- operations that log distinct blocks, no operation more than it may, come to a state where one of
-- them has logged 9 blocks of its 10 and log_write panics for any block.
pub reservation_overrun :
    (s : Sys) (f : ℕ → ℕ) (b : Block)
    → Reserved s
    → s.log.size ≡ nlog
    → s.log.committing ≡ false
    → s.log.outstanding ≡ 0
    → s.log.n ≡ 0
    → s.credits ≡ []
    → ((i j : ℕ) → f i ≡ f j → i ≡ j)
    → (t : Sys) × Reach s t
      × (t.credits ≡ 0 ∷ 0 ∷ 1 ∷ [])
      × ((a : ℕ) (c : Block) → log_write t.log t.machine a c ≡ none)
reservation_overrun s f b r z c o n e once =
    let (s1, r1, g, q1) = begun s c o n e in
    let empty : s1.log.n ≡ 0 = ap (λ (x : Log). x.n) g ∙ n in
    let h1 : Filled f s1 = record {
      size = ap (λ (x : Log). x.size) g ∙ z;
      array = ap (λ (x : Log). length x.sector) g ∙ r.array;
      outstanding = ap (λ (x : Log). x.outstanding) g;
      targets = λ j l. absurd (omega arith);
    } in
    let (s2, r2, h2, q2, n2) =
      fill f b s 10 0 10 [] (10 ∷ 10 ∷ []) s1 once r1 h1 refl q1 (omega arith) in
    let (s3, r3, h3, q3, n3) =
      fill f b s 10 0 10 (0 ∷ []) (10 ∷ []) s2 once r2 h2 refl q2 (omega arith) in
    let (s4, r4, h4, q4, n4) =
      fill f b s 9 1 10 (0 ∷ 0 ∷ []) [] s3 once r3 h3 refl q3 (omega arith) in
    let r' = Reach-Reserved r r4 in
    (s4, r4, q4, λ a d. log_write_mkfs_panics s4 a d r' h4.size (omega arith))
