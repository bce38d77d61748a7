-- ===== src/Proc/Kill.antt =====
-- kill of proc.c.
use os.Prelude.{
  ℕ, zero, suc, ◌<◌, ◌≡◌, ◌≢◌, inl, inr, refl, ap, ◌∙◌, true, false, List, [], ◌∷◌, map, Option,
  none, some, ◌==◌, if◌then◌else◌, get_elem?, ◌>>=◌, arith, Bool-cases, some_inj, none≢some,
}
use os.Proc.{runnable, is_sleeping, Kthread, Proc, threads_of}

-- The loop of kill over the threads of its target.
unfoldable pub rouse : Kthread → Kthread
rouse t = if is_sleeping t.state then record t { state = runnable } else t

-- The answer of kill: -1, or 0 with the table; `strays` where p->threads is null: the
-- loop then goes over the caller's own memory from address 0 on, which is not modelled.
pub data Kill : Type 0 where
  no_such : Kill
  killed : List Proc → Kill
  strays : Kill

unfoldable pub kill_proc : Proc → Option Proc
kill_proc p = threads_of p >>= λ ts. some (record p { killed = true; table = map rouse ts })

unfoldable pub kill_found : Option Proc → List Proc → Kill
kill_found none ps = strays
kill_found (some p) ps = killed (p ∷ ps)

unfoldable pub kill_later : Proc → Kill → Kill
kill_later p no_such = no_such
kill_later p (killed ps) = killed (p ∷ ps)
kill_later p strays = strays

unfoldable pub kill : ℕ → List Proc → Kill
kill pid [] = no_such
kill pid (p ∷ ps) =
    let later = kill_later p (kill pid ps) in
    if p.pid == pid then kill_found (kill_proc p) ps else later

-- The first process with the pid.
pub record First (pid : ℕ) (ps : List Proc) (i : ℕ) (p : Proc) : Type 0 where
  pub at : get_elem? ps i ≡ some p
  pub named : p.pid ≡ pid
  pub earlier : (k : ℕ) (q : Proc) → k < i → get_elem? ps k ≡ some q → q.pid ≢ pid

-- The tables differ at place `i` only, where the process is marked and none of its threads sleeps.
pub record Marked (ps : List Proc) (i : ℕ) (p : Proc) (ps' : List Proc) : Type 0 where
  pub p' : Proc
  pub at : get_elem? ps' i ≡ some p'
  pub marked : p' ≡ record p { killed = true; table = p'.table }
  pub roused :
      (j : ℕ) (t : Kthread) → get_elem? p.table j ≡ some t → get_elem? p'.table j ≡ some (rouse t)
  pub others : (k : ℕ) → k ≢ i → get_elem? ps' k ≡ get_elem? ps k

abbrev pub Kills : ℕ → List Proc → Kill → Type 0
Kills pid ps no_such = (i : ℕ) (p : Proc) → get_elem? ps i ≡ some p → p.pid ≢ pid
Kills pid ps (killed ps') =
    (i : ℕ) × (p : Proc) × First pid ps i p × (p.threads ≡ true) × Marked ps i p ps'
Kills pid ps strays = (i : ℕ) × (p : Proc) × First pid ps i p × (p.threads ≡ false)

get_elem?-map-rouse :
    (ts : List Kthread) (j : ℕ) (t : Kthread)
    → get_elem? ts j ≡ some t
    → get_elem? (map rouse ts) j ≡ some (rouse t)
get_elem?-map-rouse [] j t h = cc
get_elem?-map-rouse (u ∷ ts) zero t h = cc
get_elem?-map-rouse (u ∷ ts) (suc j) t h = get_elem?-map-rouse ts j t h

First-here : (pid : ℕ) (p : Proc) (ps : List Proc) → p.pid ≡ pid → First pid (p ∷ ps) 0 p
First-here pid p ps e = record { at = refl; named = e; earlier = λ k q h. absurd (omega arith) }

First-later :
    (pid i : ℕ) (p q : Proc) (ps : List Proc)
    → q.pid ≢ pid
    → First pid ps i p
    → First pid (q ∷ ps) (suc i) p
First-later pid i p q ps ne f = record {
  at = f.at;
  named = f.named;
  earlier = later pid i q ps ne f.earlier;
}
  where
    later :
        (pid i : ℕ) (q : Proc) (ps : List Proc)
        → q.pid ≢ pid
        → ((k : ℕ) (x : Proc) → k < i → get_elem? ps k ≡ some x → x.pid ≢ pid)
        → (k : ℕ) (x : Proc) → k < suc i
        → get_elem? (q ∷ ps) k ≡ some x
        → x.pid ≢ pid
    later pid i q ps ne f zero x h e = λ z. ne (ap (λ (y : Proc). y.pid) (some_inj e) ∙ z)
    later pid i q ps ne f (suc k) x h e = f k x (omega arith) e

same_rest :
    (p x : Proc) (ps : List Proc) (k : ℕ) → k ≢ 0 → get_elem? (x ∷ ps) k ≡ get_elem? (p ∷ ps) k
same_rest p x ps zero d = absurd (d refl)
same_rest p x ps (suc k) d = refl

kill_proc-some :
    (p : Proc)
    → p.threads ≡ true
    → kill_proc p ≡ some (record p { killed = true; table = map rouse p.table })
unfolding kill_proc
kill_proc-some p h = ground arith

kill_proc-none : (p : Proc) → p.threads ≡ false → kill_proc p ≡ none
unfolding kill_proc
kill_proc-none p h = ground arith

kill_here :
    (pid : ℕ) (p : Proc) (ps : List Proc)
    → p.pid ≡ pid
    → Kills pid (p ∷ ps) (kill_found (kill_proc p) ps)
unfolding kill_found
kill_here pid p ps e = elim (Bool-cases p.threads) [
  | inl h ↦ rw (kill_proc-some p h) (
    0,
    p,
    First-here pid p ps e,
    h,
    record {
      p' = record p { killed = true; table = map rouse p.table };
      at = refl;
      marked = refl;
      roused = λ j t k. get_elem?-map-rouse p.table j t k;
      others = same_rest p (record p { killed = true; table = map rouse p.table }) ps;
    },
  )
  | inr h ↦ rw (kill_proc-none p h) (0, p, First-here pid p ps e, h)
]

kill_later-Kills :
    (pid : ℕ) (p : Proc) (ps : List Proc) (r : Kill)
    → p.pid ≢ pid
    → Kills pid ps r
    → Kills pid (p ∷ ps) (kill_later p r)
unfolding kill_later
kill_later-Kills pid p ps no_such ne k = later_none
  where
    later_none : (i : ℕ) (q : Proc) → get_elem? (p ∷ ps) i ≡ some q → q.pid ≢ pid
    later_none zero q e = λ z. ne (ap (λ (y : Proc). y.pid) (some_inj e) ∙ z)
    later_none (suc i) q e = k i q e
kill_later-Kills pid p ps (killed ps') ne (i, q, f, h, m) = (
  suc i,
  q,
  First-later pid i q p ps ne f,
  h,
  record { p' = m.p'; at = m.at; marked = m.marked; roused = m.roused; others = others_later },
)
  where
    others_later : (k : ℕ) → k ≢ suc i → get_elem? (p ∷ ps') k ≡ get_elem? (p ∷ ps) k
    others_later zero d = refl
    others_later (suc k) d = m.others k (omega arith)
kill_later-Kills pid p ps strays ne (i, q, f, h) = (suc i, q, First-later pid i q p ps ne f, h)

-- kill answers -1 just if no process has the pid. Else it marks the first that has it, and that one
-- only, and makes its sleeping threads RUNNABLE; where that process has no threads any more, as
-- after exit, its loop works on the caller's memory instead.
pub kill-Kills : (pid : ℕ) (ps : List Proc) → Kills pid ps (kill pid ps)
unfolding kill
kill-Kills pid [] = λ i p e. absurd (none≢some e)
kill-Kills pid (p ∷ ps) = elim (Bool-cases (p.pid == pid)) [
  | inl e ↦ rw e (kill_here pid p ps (ground arith))
  | inr ne ↦ rw ne (kill_later-Kills pid p ps (kill pid ps) (ground arith) (kill-Kills pid ps))
]
