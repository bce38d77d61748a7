-- ===== src/Proc/Exit/Effect.antt =====
-- exit as a whole: what it leaves, whom it wakes, and where it faults.
use os.Prelude.{
  ℕ, zero, suc, ◌≡◌, ◌≢◌, inl, inr, refl, sym, ap, ◌∙◌, true, false, ◌&&◌, List, Option, ==_of_eq,
  ==_of_ne, [], ◌∷◌, map, none, some, ◌==◌, if◌then◌else◌, modify, get_elem?, arith, Bool-cases,
  >>=-eq-some, some_inj, get_elem?-modify_self, get_elem?-modify_ne,
}
use os.Proc.{
  sleeping, runnable, zombie, is_sleeping, Chan, on_proc, same_chan, Kthread, Proc, is_ready,
  same_place, HasThreads, thread_at, same_chan_refl,
}
use os.Proc.Wakeup.{wakeup1, wakeup1_present, wakeup1_thread, wakeup1_not_ready, wakeup1_total}
use os.Proc.Exit.{adopt, adopt_all, end_thread, end_proc, parent_chan, exit, NoChildren}
use os.Proc.Exit.Handover.{
  adopt_all_at, adopt_all-NoChildren, NoChildren-cons, adopt_table, adopt_exited,
}

-- The steps of an exit that goes through.
exit_steps :
    (init cur : ℕ) (low : List ℕ) (ps ps' : List Proc)
    → exit init cur low ps ≡ some ps'
    → (init ≢ cur)
      × ((p : Proc) × (ps1 : List Proc) × (get_elem? ps cur ≡ some p)
          × (wakeup1 (parent_chan p.parent) ps ≡ some ps1)
          × (ps' ≡ modify (adopt_all init cur low ps1) cur end_proc))
unfolding exit
exit_steps init cur low ps ps' e = elim (Bool-cases (cur == init)) [
  | inl b ↦ cc (rw (b, exit) at e)
  | inr b ↦
      let (p, ep, e1) = >>=-eq-some (get_elem? ps cur) _ (rw (b, exit) at e) in
      let (ps1, ew, e2) = >>=-eq-some (wakeup1 (parent_chan p.parent) ps) _ e1 in
      (ground arith, (p, ps1, ep, ew, sym (some_inj e2)))
]

NoChildren-modify :
    (cur i : ℕ) (ps : List Proc) → NoChildren cur ps → NoChildren cur (modify ps i end_proc)
unfolding end_proc
NoChildren-modify cur i [] h = h
NoChildren-modify cur zero (p ∷ ps) h =
    NoChildren-cons cur (end_proc p) ps (h 0 p refl) (λ k q e. h (suc k) q e)
NoChildren-modify cur (suc i) (p ∷ ps) h =
    NoChildren-cons cur p (modify ps i end_proc) (h 0 p refl)
      (NoChildren-modify cur i ps (λ k q e. h (suc k) q e))

all_zombie :
    (ts : List Kthread) (j : ℕ) (t : Kthread)
    → get_elem? (map end_thread ts) j ≡ some t
    → t.state ≡ zombie
unfolding end_thread
all_zombie [] j t e = cc
all_zombie (u ∷ ts) zero t e = rw (← some_inj e) refl
all_zombie (u ∷ ts) (suc j) t e = all_zombie ts j t e

-- After exit no process has the exiting one for its parent, and that one is a zombie without
-- threads, whose slots in the thread table are all zombies.
pub exit_lem :
    (init cur : ℕ) (low : List ℕ) (ps ps' : List Proc)
    → exit init cur low ps ≡ some ps'
    → NoChildren cur ps'
      × ((p' : Proc) × (get_elem? ps' cur ≡ some p')
          × (p'.state ≡ zombie)
          × (p'.threads ≡ false)
          × ((j : ℕ) (t : Kthread) → get_elem? p'.table j ≡ some t → t.state ≡ zombie))
unfolding end_proc
exit_lem init cur low ps ps' e =
    let (ne, (p, ps1, ep, ew, to)) = exit_steps init cur low ps ps' e in
    let (p1, e1) = wakeup1_present (parent_chan p.parent) ps ps1 cur p ew ep in
    let p2 = adopt init cur low p1 in
    rw to (
      NoChildren-modify cur cur (adopt_all init cur low ps1)
          (adopt_all-NoChildren init cur low ps1 ne),
      (
        end_proc p2,
        get_elem?-modify_self (adopt_all init cur low ps1) cur end_proc p2
            (adopt_all_at init cur low ps1 cur p1 e1),
        refl,
        refl,
        all_zombie p2.table,
      ),
    )

-- A thread of another process after exit is what wakeup1 made of it.
exit_thread :
    (init cur i j : ℕ) (low : List ℕ) (ps ps1 : List Proc) (q : Proc) (t : Kthread)
    → cur ≢ i
    → get_elem? ps1 i ≡ some q
    → thread_at ps1 i j ≡ some t
    → thread_at (modify (adopt_all init cur low ps1) cur end_proc) i j ≡ some t
exit_thread init cur i j low ps ps1 q t ne e h =
    rw
      (
        get_elem?-modify_ne (adopt_all init cur low ps1) cur i end_proc ne,
        adopt_all_at init cur low ps1 i q e,
        adopt_table init cur low q,
      )
      (rw e at h)

roused :
    (q : Proc) (t : Kthread) (c : Chan)
    → is_ready q ≡ true
    → t.state ≡ sleeping
    → t.chan ≡ c
    → (if is_ready q && (is_sleeping t.state && same_chan t.chan c)
        then record t { state = runnable }
        else t)
      ≡ record t { state = runnable }
roused q t c r st ch = ground (arith, same_chan_refl c)

-- A thread of the parent that sleeps in wait, on the parent's own channel, is RUNNABLE after the
-- exit of a child.
pub exit_wakes_parent :
    (init cur i j : ℕ) (low : List ℕ) (ps ps' : List Proc) (p q : Proc) (t : Kthread)
    → exit init cur low ps ≡ some ps'
    → get_elem? ps cur ≡ some p
    → p.parent ≡ some i
    → cur ≢ i
    → get_elem? ps i ≡ some q
    → is_ready q ≡ true
    → get_elem? q.table j ≡ some t
    → t.state ≡ sleeping
    → t.chan ≡ on_proc i
    → thread_at ps' i j ≡ some (record t { state = runnable })
exit_wakes_parent init cur i j low ps ps' p q t e hp pi ne hq r ht st ch =
    let (_, (p0, ps1, ep, ew, to)) = exit_steps init cur low ps ps' e in
    let same : parent_chan p0.parent ≡ on_proc i =
      ap (λ (x : Proc). parent_chan x.parent) (some_inj (sym ep ∙ hp)) ∙ ap parent_chan pi in
    let ew' = rw same at ew in
    let woken1 =
      wakeup1_thread (on_proc i) ps ps1 i j q t ew' hq ht
      ∙ ap some (roused q t (on_proc i) r st ch) in
    let (q1, e1) = wakeup1_present (on_proc i) ps ps1 i q ew' hq in
    rw to (exit_thread init cur i j low ps ps1 q1 (record t { state = runnable }) ne e1 woken1)

-- The channel of init is not the one that a child of another process wakes.
other_chan :
    (init : ℕ) (o : Option ℕ) → o ≢ some init → same_chan (on_proc init) (parent_chan o) ≡ false
other_chan init none h = refl
other_chan init (some k) h = ==_of_ne init k (λ e. h (ap some (sym e)))

not_roused :
    (q : Proc) (t : Kthread) (c : Chan)
    → same_chan t.chan c ≡ false
    → (if is_ready q && (is_sleeping t.state && same_chan t.chan c)
        then record t { state = runnable }
        else t)
      ≡ t
not_roused q t c h = ground arith

exit_goes_through :
    (init cur : ℕ) (low : List ℕ) (ps : List Proc) (p : Proc)
    → HasThreads ps
    → init ≢ cur
    → get_elem? ps cur ≡ some p
    → (ps' : List Proc) × (exit init cur low ps ≡ some ps')
unfolding exit
exit_goes_through init cur low ps p h ne e =
    let (ps1, ew) = wakeup1_total (parent_chan p.parent) ps h in
    let e' : (cur == init) ≡ false = ==_of_ne cur init (λ x. ne (sym x)) in
    (modify (adopt_all init cur low ps1) cur end_proc, rw (e', e, ew) refl)

-- A process whose parent is not init exits while a child of its own has exited and was not waited
-- for. The exit goes through, and the child stays ZOMBIE with init for its parent, whatever the
-- loop reads through its null p->threads. But a thread of init that sleeps in wait stays asleep:
-- exit wakes its own parent only.
pub exit_unreaped_child :
    (init cur i j : ℕ) (low : List ℕ) (ps : List Proc) (p child q : Proc) (t : Kthread)
    → HasThreads ps
    → init ≢ cur
    → get_elem? ps cur ≡ some p
    → p.parent ≢ some init
    → cur ≢ i
    → get_elem? ps i ≡ some child
    → child.parent ≡ some cur
    → child.state ≡ zombie
    → get_elem? ps init ≡ some q
    → get_elem? q.table j ≡ some t
    → t.state ≡ sleeping
    → t.chan ≡ on_proc init
    → (ps' : List Proc) × (exit init cur low ps ≡ some ps')
      × (get_elem? ps' i ≡ some (record child { parent = some init }))
      × (thread_at ps' init j ≡ some t)
exit_unreaped_child init cur i j low ps p child q t h ne ep np ni ei pc z eq et st ch =
    let (ps', e) = exit_goes_through init cur low ps p h ne ep in
    let (_, (p0, ps1, ep0, ew, to)) = exit_steps init cur low ps ps' e in
    let same : p0.parent ≡ p.parent = ap (λ (x : Proc). x.parent) (some_inj (sym ep0 ∙ ep)) in
    let c = parent_chan p0.parent in
    let mine : same_place child.parent cur ≡ true = rw pc (==_of_eq cur cur refl) in
    let e1 = wakeup1_not_ready c ps ps1 i child ew ei (rw z refl) in
    let (q1, eq1) = wakeup1_present c ps ps1 init q ew eq in
    let quiet : same_chan t.chan c ≡ false =
      rw ch (other_chan init p0.parent (λ x. np (sym same ∙ x))) in
    let asleep = wakeup1_thread c ps ps1 init j q t ew eq et ∙ ap some (not_roused q t c quiet) in
    (
      ps',
      e,
      rw
          (
            to,
            get_elem?-modify_ne (adopt_all init cur low ps1) cur i end_proc ni,
            adopt_all_at init cur low ps1 i child e1,
          )
          (ap some (adopt_exited init cur low child mine z)),
      rw to (exit_thread init cur init j low ps ps1 q1 t (λ x. ne (sym x)) eq1 asleep),
    )
