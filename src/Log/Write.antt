-- ===== src/Log/Write.antt =====
-- log_write: absorption, and what it adds to the transaction.
use mathlib.Core.Path.{subst}
use os.Prelude.{
  ℕ, zero, suc, ◌+◌, ◌-◌, ◌≤◌, ◌<◌, ◌≡◌, ◌≢◌, refl, sym, ap, ◌∙◌, ◌⊎◌, inl, inr, List, none, some,
  arith, get_or, length, set, ==_of_eq, ==_of_ne, some_inj, get_or-set_self, get_or-set_ne,
  length-set, leb, if◌then◌else◌, ◌||◌, ◌==◌, Bool, true, false, Bool-cases,
}
use native.Mathlib.Decide.{ℕ_discrete}
use os.Log.{Machine, Log, Block, bread, log_write, find_sector, logsize, update, lt_one}
use os.Log.Install.{Placed, Untouched, target}
use os.Log.Commit.{IsReady}

-- Where the search stops: at the first place that holds `a`, or at the end.
find_sector_lem :
    (sector : List ℕ) (a rounds i n : ℕ)
    → i + rounds ≡ n
    → let j = find_sector sector a rounds i in
      ((j < n) × (get_or sector j 0 ≡ a))
      ⊎ ((j ≡ n) × ((t : ℕ) → i ≤ t → t < n → get_or sector t 0 ≢ a))
unfolding find_sector
find_sector_lem sector a zero i n e = inr (omega arith, λ t p q. absurd (omega arith))
find_sector_lem sector a (suc rounds) i n e = elim (ℕ_discrete (get_or sector i 0) a) [
  | yes hit ↦ rw (==_of_eq _ _ hit) (inl (omega arith, hit))
  | no miss ↦
      rw (==_of_ne _ _ miss) (elim (find_sector_lem sector a rounds (i + 1) n (omega arith)) [
        | inl found ↦ inl found
        | inr (e', all) ↦ inr (
          e',
          λ t p q. elim (ℕ_discrete t i) [
            | yes here ↦ rw here miss
            | no later ↦ all t (omega arith) q
          ],
        )
      ])
]

-- What log_write does where it does not panic.
pub record Logs (log : Log) (m : Machine) (a : ℕ) (b : Block) (log' : Log) (m' : Machine)
    : Type 0 where
  pub start : log'.start ≡ log.start
  pub size : log'.size ≡ log.size
  pub outstanding : log'.outstanding ≡ log.outstanding
  pub committing : log'.committing ≡ log.committing
  pub array : length log'.sector ≡ length log.sector
  pub room : (log'.n ≡ log.n) ⊎ (log'.n ≡ log.n + 1)
  pub old : (t : ℕ) → t < log.n → target log' t ≡ target log t
  pub new : (j : ℕ) × (j < log'.n) × (target log' j ≡ a)
  pub fresh :
      (t : ℕ) → t < log'.n → (t < log.n) ⊎ ((t ≡ log.n) × (target log' t ≡ a) × Untouched log a)
  pub disk : m'.disk ≡ m.disk
  pub dirty : m'.dirty ≡ update m.dirty a (some b)

-- The entry that log_write makes when the search stops at j.
logged : Log → ℕ → ℕ → Log
logged log a j = record log {
  n = if j == log.n then log.n + 1 else log.n;
  sector = set log.sector j a;
}

pinned : Machine → ℕ → Block → Machine
pinned m a b = record m { dirty = update m.dirty a (some b) }

logged_hit :
    (log : Log) (m : Machine) (a j : ℕ) (b : Block)
    → log.n ≤ length log.sector
    → j < log.n
    → target log j ≡ a
    → Logs log m a b (logged log a j) (pinned m a b)
unfolding logged pinned
logged_hit log m a j b len h e = rw (==_of_ne j log.n (omega arith)) (record {
  start = refl;
  size = refl;
  outstanding = refl;
  committing = refl;
  array = length-set log.sector j a;
  room = inl refl;
  old = λ t k. elim (ℕ_discrete j t) [
    | yes here ↦ rw (← here) (get_or-set_self log.sector j a 0 (omega arith) ∙ sym e)
    | no other ↦ get_or-set_ne log.sector j t a 0 other
  ];
  new = (j, h, get_or-set_self log.sector j a 0 (omega arith));
  fresh = λ t k. inl k;
  disk = refl;
  dirty = refl;
})

logged_miss :
    (log : Log) (m : Machine) (a : ℕ) (b : Block)
    → log.n < length log.sector
    → Untouched log a
    → Logs log m a b (logged log a log.n) (pinned m a b)
unfolding logged pinned
logged_miss log m a b len u = rw (==_of_eq log.n log.n refl) (record {
  start = refl;
  size = refl;
  outstanding = refl;
  committing = refl;
  array = length-set log.sector log.n a;
  room = inr refl;
  old = λ t k. get_or-set_ne log.sector log.n t a 0 (omega arith);
  new = (log.n, omega arith, get_or-set_self log.sector log.n a 0 len);
  fresh = λ t k. elim (ℕ_discrete t log.n) [
    | yes here ↦ inr (here, rw here (get_or-set_self log.sector log.n a 0 len), u)
    | no other ↦ inl (omega arith)
  ];
  disk = refl;
  dirty = refl;
})

-- When log_write panics.
abbrev pub panics : Log → Bool
panics log = (leb logsize log.n || leb (log.size - 1) log.n) || lt_one log.outstanding

logged_at :
    (log : Log) (m : Machine) (a : ℕ) (b : Block)
    → log.n < logsize
    → length log.sector ≡ logsize
    → Logs log m a b (logged log a (find_sector log.sector a log.n 0)) (pinned m a b)
logged_at log m a b h len = elim (find_sector_lem log.sector a log.n 0 log.n (omega arith)) [
  | inl (k, e) ↦ logged_hit log m a (find_sector log.sector a log.n 0) b (omega arith) k e
  | inr (e, all) ↦
      rw e (logged_miss log m a b (omega arith) (λ t k q. all t (omega arith) k (sym q)))
]

pub log_write-Logs :
    (log : Log) (m : Machine) (a : ℕ) (b : Block)
    → length log.sector ≡ logsize
    → (panics log ≡ true) × (log_write log m a b ≡ none)
      ⊎ ((r : Log × Machine) × (panics log ≡ false)
          × (log_write log m a b ≡ some r)
          × Logs log m a b r.0 r.1)
unfolding log_write logged pinned
log_write-Logs log m a b len = elim (Bool-cases (leb logsize log.n || leb (log.size - 1) log.n)) [
  | inl full ↦ inl (rw full, rw full)
  | inr room ↦ elim (Bool-cases (lt_one log.outstanding)) [
    | inl outside ↦ inl (rw (room, outside), rw (room, outside))
    | inr inside ↦
        let l = logged_at log m a b (ground arith) (ground arith) in
        inr (
          (logged log a (find_sector log.sector a log.n 0), pinned m a b),
          rw (room, inside),
          rw (room, inside),
          l,
        )
  ]
]

bread_cong :
    (m m' : Machine) (s : ℕ) → m'.dirty s ≡ m.dirty s → m'.disk ≡ m.disk → bread m' s ≡ bread m s
unfolding bread
bread_cong m m' s e d = λ i. elim (e i) [ none ↦ d i s | some b ↦ b ]

module _ (log : Log) (m : Machine) (a : ℕ) (b : Block) (log' : Log) (m' : Machine)
    (l : Logs log m a b log' m') where
  Logs-Placed : Placed log → a < log.start → log.n < logsize → Placed log'
  Logs-Placed p h k = record {
    fits = ground (arith, l.room);
    before = λ t q. elim (l.fresh t q) [
      | inl o ↦ rw (l.start, l.old t o) (p.before t o)
      | inr e ↦ rw (l.start, e.1) h
    ];
    distinct = λ s t st q e. elim (l.fresh t q) [
      | inl o ↦ p.distinct s t st o (sym (l.old s (omega arith)) ∙ e ∙ l.old t o)
      | inr e' ↦ e'.2 s (omega (arith, e'.0)) (sym e'.1 ∙ sym e ∙ l.old s (omega (arith, e'.0)))
    ];
  }

  Logs-pinned :
      ((s : ℕ) → Untouched log s → m.dirty s ≡ none)
      → (s : ℕ) → Untouched log' s
      → m'.dirty s ≡ none
  Logs-pinned p s u =
      rw (l.dirty, ==_of_ne a s (λ e. u l.new.0 l.new.1 (sym e ∙ sym l.new.2)))
        (p s (λ t k e. u t (ground (arith, l.room)) (e ∙ sym (l.old t k))))

  Logs-IsReady : IsReady log m → a < log.start → log.n < logsize → IsReady log' m'
  Logs-IsReady r h k = record {
    placed = Logs-Placed r.placed h k;
    array = l.array ∙ r.array;
    clean = rw (l.disk, l.start) r.clean;
    len = rw (l.disk, l.start) r.len;
    pinned = Logs-pinned r.pinned;
  }

  Logs-bread : (s : ℕ) → bread m' s ≡ update (bread m) a b s
  unfolding bread
  Logs-bread s = elim (ℕ_discrete a s) [
    | yes e ↦ ground (arith, ap (λ d. d s) l.dirty)
    | no ne ↦
        rw (==_of_ne a s ne)
          (bread_cong m m' s (ap (λ d. d s) l.dirty ∙ rw (==_of_ne a s ne) refl) l.disk)
  ]

pub log_write-some :
    (log log' : Log) (m m' : Machine) (a : ℕ) (b : Block)
    → length log.sector ≡ logsize
    → log_write log m a b ≡ some (log', m')
    → (panics log ≡ false) × Logs log m a b log' m'
log_write-some log log' m m' a b len e = elim (log_write-Logs log m a b len) [
  | inl p ↦ cc (p.1, e)
  | inr q ↦
      let to : q.0 ≡ (log', m') = some_inj (sym q.2 ∙ e) in
      (q.1, subst (λ x. Logs log m a b x.0 x.1) to q.3)
]

-- log_write keeps a transaction ready for commit, and afterwards the cache has the new data for the
-- sector and what it had for every other.
pub log_write-IsReady :
    (log log' : Log) (m m' : Machine) (a : ℕ) (b : Block)
    → IsReady log m
    → a < log.start
    → log_write log m a b ≡ some (log', m')
    → IsReady log' m' × ((s : ℕ) → bread m' s ≡ update (bread m) a b s)
log_write-IsReady log log' m m' a b r h e =
    let q = log_write-some log log' m m' a b r.array e in
    (Logs-IsReady log m a b log' m' q.1 r h (ground (arith, q.0)), Logs-bread log m a b log' m' q.1)
