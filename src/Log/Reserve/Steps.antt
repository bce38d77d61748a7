-- ===== src/Log/Reserve/Steps.antt =====
-- The reservation over each move.
use os.Prelude.{
  ℕ, suc, ◌+◌, ◌*◌, ◌≤◌, ◌<◌, ◌≡◌, refl, sym, ap, ◌∙◌, inl, inr, List, [], ◌∷◌, ◌++◌, some, arith,
  length, ltb, if◌then◌else◌, ◌==◌, true, false, Bool-cases,
}
use native.Mathlib.Numerals.{add-one}
use os.Log.{
  Machine, Log, Block, begin_op, leave_op, finish_op, commit, log_write, stays, commits, logsize,
  maxopblocks, no_room,
}
use os.Log.Write.{log_write-some}
use os.Log.Reserve.{
  Sys, sum, AllLe, Move, begins, logs, ends, ends_last, finishes, Reserved, sum-le, sum-middle,
  length-middle, AllLe-middle, AllLe-put,
}

begin_op_room :
    (log log' : Log)
    → log.outstanding ≤ 3
    → log.n ≤ logsize
    → begin_op log ≡ some log'
    → (log.committing ≡ false)
      × (log.n + (log.outstanding + 1) * maxopblocks ≤ logsize)
      × (log' ≡ record log { outstanding = log.outstanding + 1 })
unfolding begin_op
begin_op_room log log' o k e = elim (Bool-cases log.committing) [
  | inl c ↦ cc (rw (c, begin_op) at e)
  | inr c ↦ elim (Bool-cases (no_room log)) [
    | inl full ↦ cc (rw (c, full, begin_op) at e)
    | inr room ↦ (c, ground arith, ground arith)
  ]
]

-- What the first half of end_op does when an operation is under way.
pub leave_op_lem :
    (log : Log) (k : ℕ)
    → log.committing ≡ false
    → log.outstanding ≡ suc k
    → k ≤ 3
    → leave_op log ≡ (
        if k == 0
        then commits (record log { outstanding = 0; committing = true })
        else stays (record log { outstanding = k }))
unfolding leave_op
leave_op_lem log k c o h = ground arith

leave_stays :
    (log log' : Log) (k : ℕ)
    → log.committing ≡ false
    → log.outstanding ≡ suc k
    → k ≤ 3
    → leave_op log ≡ stays log'
    → log' ≡ record log { outstanding = k }
leave_stays log log' k c o h e = ground (arith, leave_op_lem log k c o h)

leave_commits :
    (log log' : Log) (k : ℕ)
    → log.committing ≡ false
    → log.outstanding ≡ suc k
    → k ≤ 3
    → leave_op log ≡ commits log'
    → (k ≡ 0) × (log' ≡ record log { outstanding = 0; committing = true })
leave_commits log log' k c o h e = ground (arith, leave_op_lem log k c o h)

length_zero : (cs : List ℕ) → length cs ≡ 0 → cs ≡ []
length_zero [] e = refl
length_zero (c ∷ cs) e = absurd (omega arith)

finish_op-log :
    (log : Log) (m : Machine) → (finish_op log m).0 ≡ record log { n = 0; committing = false }
unfolding finish_op commit
finish_op-log log m = elim (Bool-cases (ltb 0 log.n)) [
  | inl some_logged ↦ rw some_logged
  | inr nothing ↦ rw nothing (ground arith)
]

begins-Reserved :
    (s : Sys) (log' : Log)
    → begin_op s.log ≡ some log'
    → Reserved s
    → Reserved (record s { log = log'; credits = maxopblocks ∷ s.credits })
begins-Reserved s log' e r =
    let b = begin_op_room s.log log' (omega (arith, r.counted, r.few)) (omega (arith, r.fits)) e in
    rw (b.2) (record {
      counted = omega (arith, r.counted);
      few = omega (arith, r.counted, b.1);
      small = (omega arith, r.small);
      fits = omega (arith, b.1, r.counted, sum-le maxopblocks s.credits r.small);
      alone = λ q. cc (b.0, q);
      array = r.array;
    })

-- What a member of the credits tells of the others.
pub member :
    (s : Sys) (front back : List ℕ) (c : ℕ)
    → s.credits ≡ front ++ (c ∷ back)
    → Reserved s
    → (s.log.committing ≡ false)
      × (s.log.outstanding ≡ suc (length (front ++ back)))
      × (length (front ++ back) < 3)
      × AllLe maxopblocks (front ++ back)
      × (c ≤ maxopblocks)
      × (s.log.n + sum (front ++ back) + c ≤ logsize)
member s front back c q r =
    let small = AllLe-middle maxopblocks front back c (rw q at r.small) in
    let len = length-middle front back c in
    let total = ap length q in
    (
      elim (Bool-cases s.log.committing) [
        | inl b ↦ absurd (omega (arith, ap length (sym q ∙ r.alone b), len))
        | inr b ↦ b
      ],
      omega (arith, r.counted, total, len),
      omega (arith, r.few, total, len),
      small.0,
      small.1,
      omega (arith, r.fits, ap sum q, sum-middle front back c),
    )

logs-Reserved :
    (s : Sys) (front back : List ℕ) (c a : ℕ) (b : Block) (log' : Log) (m' : Machine)
    → s.credits ≡ front ++ (suc c ∷ back)
    → log_write s.log s.machine a b ≡ some (log', m')
    → Reserved s
    → Reserved (record { log = log'; machine = m'; credits = front ++ (c ∷ back) })
logs-Reserved s front back c a b log' m' q e r =
    let k = member s front back (suc c) q r in
    let l = (log_write-some s.log log' s.machine m' a b r.array e).1 in
    record {
      counted = l.outstanding ∙ k.1 ∙ sym (length-middle front back c ∙ add-one _);
      few = omega (arith, k.2, length-middle front back c);
      small = AllLe-put maxopblocks front back c k.3 (omega (arith, k.4));
      fits = ground (arith, k.5, l.room, sum-middle front back c);
      alone = λ t. cc (k.0, sym l.committing ∙ t);
      array = l.array ∙ r.array;
    }

ends-Reserved :
    (s : Sys) (front back : List ℕ) (c : ℕ) (log' : Log)
    → s.credits ≡ front ++ (c ∷ back)
    → leave_op s.log ≡ stays log'
    → Reserved s
    → Reserved (record s { log = log'; credits = front ++ back })
ends-Reserved s front back c log' q e r =
    let k = member s front back c q r in
    let to = (leave_stays s.log log' (length (front ++ back)) k.0 k.1 (omega (arith, k.2)) e) in
    rw to (record {
      counted = refl;
      few = omega (arith, k.2);
      small = k.3;
      fits = omega (arith, k.5);
      alone = λ t. cc (k.0, t);
      array = r.array;
    })

ends_last-Reserved :
    (s : Sys) (front back : List ℕ) (c : ℕ) (log' : Log)
    → s.credits ≡ front ++ (c ∷ back)
    → leave_op s.log ≡ commits log'
    → Reserved s
    → Reserved (record s { log = log'; credits = front ++ back })
ends_last-Reserved s front back c log' q e r =
    let k = member s front back c q r in
    let to = (leave_commits s.log log' (length (front ++ back)) k.0 k.1 (omega (arith, k.2)) e) in
    rw to.1 (record {
      counted = sym to.0;
      few = omega (arith, k.2);
      small = k.3;
      fits = omega (arith, k.5);
      alone = λ _. length_zero (front ++ back) to.0;
      array = r.array;
    })

finishes-Reserved :
    (s : Sys)
    → s.log.committing ≡ true
    → Reserved s
    → Reserved
        (record s { log = (finish_op s.log s.machine).0; machine = (finish_op s.log s.machine).1 })
finishes-Reserved s e r = rw (finish_op-log s.log s.machine) (record {
  counted = r.counted;
  few = r.few;
  small = r.small;
  fits = omega (arith, r.fits);
  alone = λ t. cc t;
  array = r.array;
})

-- Every step keeps the reservation.
pub Move-Reserved : {s t : Sys} → Move s t → Reserved s → Reserved t
Move-Reserved {s} (begins log' e) r = begins-Reserved s log' e r
Move-Reserved {s} (logs front back c a b log' m' q e) r =
    logs-Reserved s front back c a b log' m' q e r
Move-Reserved {s} (ends front back c log' q e) r = ends-Reserved s front back c log' q e r
Move-Reserved {s} (ends_last front back c log' q e) r = ends_last-Reserved s front back c log' q e r
Move-Reserved {s} (finishes e) r = finishes-Reserved s e r
