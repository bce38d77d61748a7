-- ===== src/Proc/Threads/Create.antt =====
-- What kthread_create makes of the row of threads.
use os.Prelude.{
  ℕ, suc, ◌+◌, ◌%◌, ◌^◌, ◌≡◌, ◌≢◌, inl, inr, refl, sym, ap, true, List, [], ◌∷◌, some, modify,
  get_elem?, arith, Bool-cases, >>=-eq-some, some_inj, none≢some, get_elem?-modify_self,
  get_elem?-modify_ne,
}
use os.Proc.{runnable, is_unused, Kthread}
use os.Proc.{TrapFrame}
use os.Proc.Threads.{find_unused, set_up, kthread_create}

find_unused-some :
    (ts : List Kthread) (i k : ℕ)
    → find_unused ts i ≡ some k
    → (j : ℕ) × (k ≡ i + j)
      × ((t : Kthread) × (get_elem? ts j ≡ some t) × (is_unused t.state ≡ true))
unfolding find_unused
find_unused-some [] i k e = absurd (none≢some e)
find_unused-some (t ∷ ts) i k e = elim (Bool-cases (is_unused t.state)) [
  | inl u ↦ (0, omega (arith, some_inj (rw u at e)), (t, refl, u))
  | inr u ↦
      let (j, q, r) = find_unused-some ts (i + 1) k (rw (u, find_unused) at e) in
      (suc j, omega arith, r)
]

-- kthread_create takes a slot that was UNUSED, gives it the next tid, and makes it RUNNABLE in user
-- mode at the start function, on the stack that the caller gave; every other slot stays as it was.
pub kthread_create_lem :
    (forkret cur nexttid start_func stack stack_size tid nexttid' : ℕ) (frame : TrapFrame)
    (ts ts' : List Kthread)
    → kthread_create forkret cur nexttid start_func stack stack_size frame ts
      ≡ some (tid, nexttid', ts')
    → (j : ℕ) × (t t' : Kthread) × (get_elem? ts j ≡ some t)
      × (is_unused t.state ≡ true)
      × (get_elem? ts' j ≡ some t')
      × (t'.state ≡ runnable)
      × (t'.tid ≡ tid)
      × (tid ≡ nexttid)
      × (t'.frame.eip ≡ start_func)
      × (t'.frame.esp ≡ (stack + stack_size) % 2 ^ 32)
      × (t'.parent ≡ some cur)
      × ((k : ℕ) → k ≢ j → get_elem? ts' k ≡ get_elem? ts k)
unfolding kthread_create set_up
kthread_create_lem forkret cur nexttid start_func stack stack_size tid nexttid' frame ts ts' e =
    let (k, ek, e') = >>=-eq-some (find_unused ts 0) _ e in
    let (j, q, (t, ej, u)) = find_unused-some ts 0 k ek in
    let here : j ≡ k = omega arith in
    let f = set_up forkret cur nexttid start_func stack stack_size frame in
    let row : ts' ≡ modify ts j f =
      rw here (sym (ap (λ (x : ℕ × ℕ × List Kthread). x.2) (some_inj e'))) in
    (
      j,
      t,
      f t,
      ej,
      u,
      rw row (get_elem?-modify_self ts j f t ej),
      refl,
      ap (λ (x : ℕ × ℕ × List Kthread). x.0) (some_inj e'),
      sym (ap (λ (x : ℕ × ℕ × List Kthread). x.0) (some_inj e')),
      refl,
      refl,
      refl,
      λ i ne. rw row (get_elem?-modify_ne ts j i f (λ z. ne (sym z))),
    )
