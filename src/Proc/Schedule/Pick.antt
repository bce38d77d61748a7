-- ===== src/Proc/Schedule/Pick.antt =====
-- Which thread the scheduler picks.
use mathlib.Core.Path.{subst}
use os.Prelude.{
  ℕ, zero, suc, ◌+◌, ◌<◌, ◌≡◌, refl, sym, ap, ◌∙◌, inl, inr, Bool, true, false, List, [], ◌∷◌,
  Option, none, some, arith, if◌then◌else◌, get_elem?, some_inj, none≢some, Bool-cases,
}
use os.Proc.{is_runnable, Kthread, Proc, is_ready, HasThreads}
use os.Proc.Schedule.{Choice, faults, idle, runs, find_runnable, or_later, scan}

-- No thread of these is RUNNABLE.
abbrev pub NoneRunnable : List Kthread → Type 0
NoneRunnable ts = (k : ℕ) (t : Kthread) → get_elem? ts k ≡ some t → is_runnable t.state ≡ false

-- No thread of a ready process is RUNNABLE, before process n.
abbrev pub NoneReady : ℕ → List Proc → Type 0
NoneReady n ps =
    (k : ℕ) (p : Proc) → k < n → get_elem? ps k ≡ some p → is_ready p ≡ true → NoneRunnable p.table

-- Thread j is the first of these that is RUNNABLE.
pub record First (ts : List Kthread) (j : ℕ) : Type 0 where
  pub thread : Kthread
  pub here : get_elem? ts j ≡ some thread
  pub can_run : is_runnable thread.state ≡ true
  pub before : (k : ℕ) (t : Kthread) → k < j → get_elem? ts k ≡ some t → is_runnable t.state ≡ false

-- What the scan says of the processes that it goes over, the first of which has place i.
abbrev pub Chooses : List Proc → ℕ → Choice → Type 0
Chooses ps i faults = ⊥
Chooses ps i idle = (n : ℕ) → NoneReady n ps
Chooses ps i (runs i' j) =
    (k : ℕ) × (i' ≡ i + k)
    × (p : Proc) × (get_elem? ps k ≡ some p)
    × (is_ready p ≡ true)
    × First p.table j
    × NoneReady k ps

abbrev Finds : List Kthread → ℕ → Option ℕ → Type 0
Finds ts j none = NoneRunnable ts
Finds ts j (some m) = (k : ℕ) × (m ≡ j + k) × First ts k

none_before :
    (t : Kthread) (ts : List Kthread)
    → is_runnable t.state ≡ false
    → (n : ℕ)
    → ((k : ℕ) (u : Kthread) → suc k < n → get_elem? ts k ≡ some u → is_runnable u.state ≡ false)
    → (k : ℕ) (u : Kthread) → k < n
    → get_elem? (t ∷ ts) k ≡ some u
    → is_runnable u.state ≡ false
none_before t ts h n rest zero u l e = ap (λ x. is_runnable x.state) (sym (some_inj e)) ∙ h
none_before t ts h n rest (suc k) u l e = rest k u l e

Finds-cons :
    (t : Kthread) (ts : List Kthread) (j : ℕ) (r : Option ℕ)
    → is_runnable t.state ≡ false
    → Finds ts (j + 1) r
    → Finds (t ∷ ts) j r
Finds-cons t ts j none h all =
    λ k u e. none_before t ts h (suc k) (λ m v l q. all m v q) k u (omega arith) e
Finds-cons t ts j (some m) h (k, e, f) = (
  suc k,
  omega arith,
  record {
    thread = f.thread;
    here = f.here;
    can_run = f.can_run;
    before = none_before t ts h (suc k) (λ n v l q. f.before n v (omega arith) q);
  },
)

find_runnable-Finds : (ts : List Kthread) (j : ℕ) → Finds ts j (find_runnable ts j)
unfolding find_runnable
find_runnable-Finds [] j = λ k t e. absurd (none≢some e)
find_runnable-Finds (t ∷ ts) j = elim (Bool-cases (is_runnable t.state)) [
  | inl e ↦ rw e (
    0,
    omega arith,
    record { thread = t; here = refl; can_run = e; before = λ k u l q. absurd (omega arith) },
  )
  | inr e ↦ rw e (Finds-cons t ts j (find_runnable ts (j + 1)) e (find_runnable-Finds ts (j + 1)))
]

none_ready :
    (p : Proc) (ps : List Proc) (n : ℕ)
    → (is_ready p ≡ true → NoneRunnable p.table)
    → ((k : ℕ) (q : Proc)
        → suc k < n
        → get_elem? ps k ≡ some q
        → is_ready q ≡ true
        → NoneRunnable q.table)
    → NoneReady n (p ∷ ps)
none_ready p ps n h rest zero q l e r =
    subst (λ x. NoneRunnable x.table) (some_inj e) (h (ap is_ready (some_inj e) ∙ r))
none_ready p ps n h rest (suc k) q l e r = rest k q l e r

Chooses-cons :
    (p : Proc) (ps : List Proc) (i : ℕ) (c : Choice)
    → (is_ready p ≡ true → NoneRunnable p.table)
    → Chooses ps (i + 1) c
    → Chooses (p ∷ ps) i c
Chooses-cons p ps i faults h all = elim all [ ]
Chooses-cons p ps i idle h all = λ n. none_ready p ps n h (λ k q l e r. all n k q (omega arith) e r)
Chooses-cons p ps i (runs i' j) h (k, e, q, at, r, f, none_yet) = (
  suc k,
  omega arith,
  q,
  at,
  r,
  f,
  none_ready p ps (suc k) h (λ m u l e s. none_yet m u (omega arith) e s),
)

or_later-Chooses :
    (p : Proc) (ps : List Proc) (i : ℕ) (r : Option ℕ) (later : Choice)
    → is_ready p ≡ true
    → Finds p.table 0 r
    → Chooses ps (i + 1) later
    → Chooses (p ∷ ps) i (or_later i r later)
unfolding or_later
or_later-Chooses p ps i none later h all rest = Chooses-cons p ps i later (λ e. all) rest
or_later-Chooses p ps i (some j) later h (k, e, f) rest =
    let same : k ≡ j = omega arith in
    (0, omega arith, p, refl, h, subst (First p.table) same f, λ m q l at s. absurd (omega arith))

-- The tests of the scan at one process.
scan_at :
    (ready threads : Bool) (p : Proc) (ps : List Proc) (i : ℕ) (later : Choice)
    → is_ready p ≡ ready
    → (ready ≡ true → threads ≡ true)
    → Chooses ps (i + 1) later
    → Chooses (p ∷ ps) i (
        if ready
        then if threads then or_later i (find_runnable p.table 0) later else faults
        else later)
scan_at true true p ps i later e h rest =
    or_later-Chooses p ps i (find_runnable p.table 0) later e (find_runnable-Finds p.table 0) rest
scan_at true false p ps i later e h rest = cc (h refl)
scan_at false threads p ps i later e h rest = Chooses-cons p ps i later (λ q. cc) rest

-- Where every process that can run has its threads, the scan of the process table follows no null
-- pointer. It picks a RUNNABLE thread of a ready process, the first one in the order of the table,
-- and picks none just if no thread of any ready process is RUNNABLE.
pub scan-Chooses : (ps : List Proc) (i : ℕ) → HasThreads ps → Chooses ps i (scan ps i)
unfolding scan
scan-Chooses [] i h = λ n k p l e. absurd (none≢some e)
scan-Chooses (p ∷ ps) i (h, hs) =
    scan_at (is_ready p) p.threads p ps i (scan ps (i + 1)) refl h (scan-Chooses ps (i + 1) hs)
