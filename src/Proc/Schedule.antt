-- ===== src/Proc/Schedule.antt =====
-- scheduler of proc.c: which thread a processor runs next. The scan over the table is kept across
-- swtch, so `resume` goes on behind the thread that gave the processor back.
pub mod Pick
use os.Prelude.{
  ℕ, zero, suc, ◌+◌, ◌-◌, ◌≤◌, ◌<◌, ◌≡◌, ◌≢◌, refl, sym, ap, ◌∙◌, ◌⊎◌, inl, inr, Bool, true, false,
  List, [], ◌∷◌, Option, none, some, arith, if◌then◌else◌, not, ◌||◌, ◌==◌, get_elem?, modify, drop,
  some_inj, none≢some, Bool-cases, Option-cases,
}
use os.Proc.{State, is_runnable, running, Kthread, Proc, is_ready, HasThreads}

abbrev pub is_running : State → Bool
is_running running = true
is_running _ = false

-- What the scan comes to: a null pointer, the end of the table, or the thread to run.
pub data Choice : Type 0 where
  faults idle : Choice
  runs : ℕ → ℕ → Choice

-- The first RUNNABLE thread, counted from place j.
unfoldable pub find_runnable : List Kthread → ℕ → Option ℕ
find_runnable [] j = none
find_runnable (t ∷ ts) j =
    let later = find_runnable ts (j + 1) in if is_runnable t.state then some j else later

unfoldable pub or_later : ℕ → Option ℕ → Choice → Choice
or_later i (some j) later = runs i j
or_later i none later = later

-- The outer loop from process i on, over the processes that are left.
unfoldable pub scan : List Proc → ℕ → Choice
scan [] i = idle
scan (p ∷ ps) i =
    let later = scan ps (i + 1) in
    if is_ready p
    then if p.threads then or_later i (find_runnable p.table 0) later else faults
    else later

-- The inner loop behind thread j of process i. When p->threads has become null meanwhile, t is not
-- below &p->threads[NTHREAD], and the inner loop ends.
unfoldable pub rest_of : ℕ → ℕ → Proc → List Proc → Choice
rest_of i j p later =
    if p.threads
    then or_later i (find_runnable (drop (j + 1) p.table) (j + 1)) (scan later (i + 1))
    else scan later (i + 1)

unfoldable pub resume : ℕ → ℕ → List Proc → Choice
resume i j ps = elim (get_elem? ps i) [ none ↦ idle | some p ↦ rest_of i j p (drop (i + 1) ps) ]

-- t->state = RUNNING for the thread chosen.
unfoldable pub dispatch : ℕ → ℕ → List Proc → List Proc
dispatch i j ps =
    modify ps i (λ p. record p { table = modify p.table j (λ t. record t { state = running }) })

-- The tests of sched that panic: ptable.lock is not held, other locks are, the thread is still
-- RUNNING, or interrupts are on.
unfoldable pub sched_panics : Bool → ℕ → State → Bool → Bool
sched_panics holds ncli state interrupts =
    not holds || not (ncli == 1) || is_running state || interrupts
