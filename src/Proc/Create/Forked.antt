-- ===== src/Proc/Create/Forked.antt =====
-- What fork makes of the table.
use os.Prelude.{
  ℕ, suc, ◌+◌, ◌≡◌, ◌≢◌, inl, inr, refl, sym, ap, ◌∙◌, true, List, [], ◌∷◌, map, Option, none, some,
  modify, get_elem?, arith, Bool-cases, Option-cases, map_at, some_inj, none≢some,
  get_elem?-modify_self, get_elem?-modify_ne,
}
use os.Proc.{unused, runnable, is_unused, Kthread, Proc, TrapFrame}
use os.Proc.Create.{
  find_slot, clear_thread, main_thread, claim, furnish, Alloc, allocproc, child_threads, child,
  fork_into, fork,
}

find_slot-some :
    (ps : List Proc) (i k : ℕ)
    → find_slot ps i ≡ some k
    → (j : ℕ) × (k ≡ i + j) × ((p : Proc) × (get_elem? ps j ≡ some p) × (is_unused p.state ≡ true))
unfolding find_slot
find_slot-some [] i k e = absurd (none≢some e)
find_slot-some (p ∷ ps) i k e = elim (Bool-cases (is_unused p.state)) [
  | inl u ↦ (0, omega (arith, some_inj (rw u at e)), (p, refl, u))
  | inr u ↦
      let (j, q, r) = find_slot-some ps (i + 1) k (rw (u, find_slot) at e) in
      (suc j, omega arith, r)
]

-- A child that fork has made.
pub record Child (cur : ℕ) (parent : Proc) (caller : Kthread) (pid : ℕ) (ps ps' : List Proc)
    : Type 0 where
  pub i : ℕ
  pub slot : Proc
  pub p : Proc
  pub at : get_elem? ps i ≡ some slot
  pub free : is_unused slot.state ≡ true
  pub now : get_elem? ps' i ≡ some p
  pub named : p.pid ≡ pid
  pub state : p.state ≡ runnable
  pub threads : p.threads ≡ true
  pub parent_of : p.parent ≡ some cur
  pub size : p.sz ≡ parent.sz
  pub main :
      (t0 : Kthread)
      → get_elem? slot.table 0 ≡ some t0
      → (t : Kthread) × (get_elem? p.table 0 ≡ some t)
        × (t.state ≡ runnable)
        × (t.frame ≡ record caller.frame { eax = 0 })
        × (t.parent ≡ some i)
  pub rest : (j : ℕ) (t : Kthread) → get_elem? p.table (suc j) ≡ some t → t.state ≡ unused
  pub others : (k : ℕ) → k ≢ i → get_elem? ps' k ≡ get_elem? ps k

module _ (forkret a : ℕ) (junk : TrapFrame) (k : ℕ) (caller : Kthread) where
  abbrev row : List Kthread → List Kthread
  row ts = child_threads k caller (modify (map clear_thread ts) 0 (main_thread forkret a junk))

  main_of :
      (ts : List Kthread) (t0 : Kthread)
      → get_elem? ts 0 ≡ some t0
      → (t : Kthread) × (get_elem? (row ts) 0 ≡ some t)
        × (t.state ≡ runnable)
        × (t.frame ≡ record caller.frame { eax = 0 })
        × (t.parent ≡ some k)
  unfolding child_threads
  main_of [] t0 e = absurd (none≢some e)
  main_of (u ∷ ts) t0 e = (_, refl, refl, refl, refl)

  rest_of :
      (ts : List Kthread) (j : ℕ) (t : Kthread)
      → get_elem? (row ts) (suc j) ≡ some t
      → t.state ≡ unused
  unfolding child_threads clear_thread
  rest_of [] j t e = absurd (none≢some e)
  rest_of (u ∷ ts) j t e =
      let (v, ev, q) = map_at (map clear_thread ts) clear_thread j t e in rw q refl

-- The child, from the slot that it took.
module _ (forkret a : ℕ) (junk : TrapFrame) (cur d : ℕ) (parent : Proc) (caller : Kthread)
    (nextpid pid k : ℕ) (ps : List Proc) (slot : Proc) where
  abbrev furnished : Proc
  furnished = furnish forkret a junk (claim nextpid slot)

  abbrev made : List Proc
  made =
      modify (modify ps k (λ p. furnish forkret a junk (claim nextpid p))) k
        (child cur k d parent caller)

  made_at :
      get_elem? ps k ≡ some slot → get_elem? made k ≡ some (child cur k d parent caller furnished)
  made_at h =
      get_elem?-modify_self (modify ps k (λ p. furnish forkret a junk (claim nextpid p))) k
        (child cur k d parent caller) furnished
        (get_elem?-modify_self ps k (λ p. furnish forkret a junk (claim nextpid p)) slot h)

  forked :
      pid ≡ nextpid
      → get_elem? ps k ≡ some slot
      → is_unused slot.state ≡ true
      → Child cur parent caller pid ps made
  unfolding child furnish claim
  forked same h free = record {
    i = k;
    slot = slot;
    p = child cur k d parent caller furnished;
    at = h;
    free = free;
    now = made_at h;
    named = sym same;
    state = refl;
    threads = refl;
    parent_of = refl;
    size = refl;
    main = λ t0 e. main_of forkret a junk k caller slot.table t0 e;
    rest = λ j t e. rest_of forkret a junk k caller slot.table j t e;
    others = λ i ne.
        get_elem?-modify_ne (modify ps k (λ p. furnish forkret a junk (claim nextpid p))) k i
          (child cur k d parent caller) (λ z. ne (sym z))
        ∙ get_elem?-modify_ne ps k i (λ p. furnish forkret a junk (claim nextpid p))
            (λ z. ne (sym z));
  }

allocproc_at :
    (forkret : ℕ) (page : Option ℕ) (junk : TrapFrame) (nextpid : ℕ) (ps : List Proc) (k : ℕ)
    → (allocproc forkret page junk nextpid ps).place ≡ some k
    → (find_slot ps 0 ≡ some k)
      × ((a : ℕ) × ((allocproc forkret page junk nextpid ps).procs
            ≡ modify ps k (λ p. furnish forkret a junk (claim nextpid p))))
unfolding allocproc
allocproc_at forkret none junk nextpid ps k e = elim (Option-cases (find_slot ps 0)) [
  | inl n ↦ cc (rw (n, allocproc) at e)
  | inr (i, n) ↦ cc (rw (n, allocproc) at e)
]
allocproc_at forkret (some a) junk nextpid ps k e = elim (Option-cases (find_slot ps 0)) [
  | inl n ↦ cc (rw (n, allocproc) at e)
  | inr (i, n) ↦
      let same : i ≡ k = some_inj (rw (n, allocproc) at e) in
      (
        n ∙ ap some same,
        (
          a,
          rw (n, allocproc)
              (ap (λ j. modify ps j (λ p. furnish forkret a junk (claim nextpid p))) same),
        ),
      )
]

fork_into_at :
    (cur : ℕ) (copied : Option ℕ) (parent : Proc) (caller : Kthread) (nextpid pid : ℕ) (al : Alloc)
    → (fork_into cur copied parent caller nextpid al).pid ≡ some pid
    → (k d : ℕ) × (al.place ≡ some k)
      × (pid ≡ nextpid)
      × ((fork_into cur copied parent caller nextpid al).procs
          ≡ modify al.procs k (child cur k d parent caller))
unfolding fork_into
fork_into_at cur none parent caller nextpid pid al e = elim (Option-cases al.place) [
  | inl n ↦ cc (rw (n, fork_into) at e)
  | inr (i, n) ↦ cc (rw (n, fork_into) at e)
]
fork_into_at cur (some d) parent caller nextpid pid al e = elim (Option-cases al.place) [
  | inl n ↦ cc (rw (n, fork_into) at e)
  | inr (i, n) ↦ (i, d, n, sym (some_inj (rw (n, fork_into) at e)), rw (n, fork_into) refl)
]

-- fork, where it does not answer -1, takes one slot that was UNUSED and no other. The child there
-- has the pid returned, which is the next pid; it is RUNNABLE, with the caller's process for its
-- parent; its first thread is RUNNABLE and has the caller's trap frame with eax 0, and its other
-- threads are UNUSED.
pub fork_lem :
    (forkret : ℕ) (page : Option ℕ) (junk : TrapFrame) (copied : Option ℕ) (cur : ℕ) (parent : Proc)
    (caller : Kthread) (nextpid pid : ℕ) (ps : List Proc)
    → (fork forkret page junk copied cur parent caller nextpid ps).pid ≡ some pid
    → (pid ≡ nextpid)
      × Child cur parent caller pid ps
          (fork forkret page junk copied cur parent caller nextpid ps).procs
unfolding fork
fork_lem forkret page junk copied cur parent caller nextpid pid ps e =
    let (k, d, pl, same, to) =
      fork_into_at cur copied parent caller nextpid pid (allocproc forkret page junk nextpid ps)
        e in
    let (fs, (a, to')) = allocproc_at forkret page junk nextpid ps k pl in
    let (j, q, (slot, at, free)) = find_slot-some ps 0 k fs in
    let here : j ≡ k = omega arith in
    (
      same,
      rw to (
          rw to' (
            forked forkret a junk cur d parent caller nextpid pid k ps slot same (rw here at at)
              free)),
    )
