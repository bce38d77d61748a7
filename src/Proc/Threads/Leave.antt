-- ===== src/Proc/Threads/Leave.antt =====
-- What kthread_exit leaves: who is woken, and what a later join or create finds.
use os.Prelude.{
  ℕ, suc, ◌+◌, ◌≡◌, ◌≢◌, refl, sym, ap, ◌∙◌, Bool, false, List, [], ◌∷◌, map, none, some, ◌==◌,
  if◌then◌else◌, modify, get_elem?, arith, map_at, modify_at, get_elem?-map, get_elem?-modify_ne,
  ==_of_ne,
}
use os.Proc.{sleeping, runnable, zombie, is_unused, Chan, on_thread, Kthread, same_chan_refl}
use os.Proc.{TrapFrame}
use os.Proc.Threads.{
  find_unused, kthread_create, wake_thread, wakeup_threads, clear, gone, kthread_exit, failed,
  put_back, join_scan, kthread_join,
}

find_unused-none :
    (ts : List Kthread) (i : ℕ)
    → ((j : ℕ) (t : Kthread) → get_elem? ts j ≡ some t → is_unused t.state ≡ false)
    → find_unused ts i ≡ none
unfolding find_unused
find_unused-none [] i h = refl
find_unused-none (t ∷ ts) i h =
    rw (h 0 t refl) (find_unused-none ts (i + 1) (λ j u e. h (suc j) u e))

-- A join for an id that no slot has answers -1.
join_scan-failed :
    (id i : ℕ) (is_killed : Bool) (ts : List Kthread)
    → ((j : ℕ) (t : Kthread) → get_elem? ts j ≡ some t → t.tid ≢ id)
    → join_scan id is_killed none ts i ≡ failed
unfolding join_scan put_back
join_scan-failed id i is_killed [] h = refl
join_scan-failed id i is_killed (t ∷ ts) h =
    let ih = join_scan-failed id (i + 1) is_killed ts (λ j u e. h (suc j) u e) in
    rw (==_of_ne t.tid id (h 0 t refl), ih) refl

abbrev end : Kthread → Kthread
end t = record t { state = zombie }

gone_row :
    (cur me : ℕ) (ts ts' : List Kthread)
    → kthread_exit cur me ts ≡ gone ts'
    → ts' ≡ map (wake_thread (on_thread cur me)) (modify (modify ts me end) me clear)
unfolding kthread_exit wakeup_threads
gone_row cur me ts ts' e = ground arith

twice :
    (j me : ℕ) (w v u : Kthread)
    → w ≡ (if j == me then clear v else v)
    → v ≡ (if j == me then end u else u)
    → w ≡ (if j == me then clear (end u) else u)
twice j me w v u p q = ground arith

ended_tid :
    (cur me j : ℕ) (u u' : Kthread) (tid : ℕ)
    → u' ≡ wake_thread (on_thread cur me) (if j == me then clear (end u) else u)
    → tid ≢ 0
    → (u.tid ≡ tid → j ≡ me)
    → u'.tid ≢ tid
unfolding wake_thread clear
ended_tid cur me j u u' tid q nz unique e = ground arith

ended_used :
    (cur me j : ℕ) (u u' : Kthread)
    → u' ≡ wake_thread (on_thread cur me) (if j == me then clear (end u) else u)
    → is_unused u.state ≡ false
    → is_unused u'.state ≡ false
unfolding wake_thread clear
ended_used cur me j u u' q h = ground arith

-- What is at a place after kthread_exit.
exited_at :
    (cur me : ℕ) (ts ts' : List Kthread) (j : ℕ) (u' : Kthread)
    → kthread_exit cur me ts ≡ gone ts'
    → get_elem? ts' j ≡ some u'
    → (u : Kthread) × (get_elem? ts j ≡ some u)
      × (u' ≡ wake_thread (on_thread cur me) (if j == me then clear (end u) else u))
unfolding kthread_exit
exited_at cur me ts ts' j u' e h =
    let (w, ew, qw) =
      map_at (modify (modify ts me end) me clear) (wake_thread (on_thread cur me)) j u'
        (rw (gone_row cur me ts ts' e) at h) in
    let (v, ev, qv) = modify_at (modify ts me end) me clear j w ew in
    let (u, eu, qu) = modify_at ts me end j v ev in
    (u, eu, qw ∙ ap (wake_thread (on_thread cur me)) (twice j me w v u qv qu))

-- A thread that has called kthread_exit cannot be joined afterwards: it has given up its tid, and
-- kthread_join for it answers -1, killed or not.
pub kthread_join_ended :
    (cur me : ℕ) (is_killed : Bool) (ts ts' : List Kthread) (t : Kthread)
    → get_elem? ts me ≡ some t
    → t.tid ≢ 0
    → ((j : ℕ) (u : Kthread) → get_elem? ts j ≡ some u → u.tid ≡ t.tid → j ≡ me)
    → kthread_exit cur me ts ≡ gone ts'
    → kthread_join t.tid is_killed ts' ≡ failed
unfolding kthread_join
kthread_join_ended cur me is_killed ts ts' t h nz unique e =
    join_scan-failed t.tid 0 is_killed ts' (λ j u' k.
      let (u, eu, q) = exited_at cur me ts ts' j u' e k in
      ended_tid cur me j u u' t.tid q nz (unique j u eu))

-- The slot of an ended thread is not used again: where no slot was UNUSED before, kthread_create answers -1 after.
pub kthread_create_ended :
    (cur me forkret nexttid start_func stack stack_size : ℕ) (frame : TrapFrame)
    (ts ts' : List Kthread)
    → ((j : ℕ) (t : Kthread) → get_elem? ts j ≡ some t → is_unused t.state ≡ false)
    → kthread_exit cur me ts ≡ gone ts'
    → kthread_create forkret cur nexttid start_func stack stack_size frame ts' ≡ none
unfolding kthread_create
kthread_create_ended cur me forkret nexttid start_func stack stack_size frame ts ts' full e =
    rw
      (find_unused-none ts' 0 (λ j u' k.
        let (u, eu, q) = exited_at cur me ts ts' j u' e k in
        ended_used cur me j u u' q (full j u eu)))
      refl

woken_up :
    (t : Kthread) (c : Chan)
    → t.state ≡ sleeping
    → t.chan ≡ c
    → wake_thread c t ≡ record t { state = runnable }
unfolding wake_thread
woken_up t c st ch = ground (arith, same_chan_refl c)

-- kthread_exit makes the threads that sleep in kthread_join on the one that ends RUNNABLE.
pub kthread_exit_wakes :
    (cur me j : ℕ) (ts ts' : List Kthread) (t : Kthread)
    → kthread_exit cur me ts ≡ gone ts'
    → j ≢ me
    → get_elem? ts j ≡ some t
    → t.state ≡ sleeping
    → t.chan ≡ on_thread cur me
    → get_elem? ts' j ≡ some (record t { state = runnable })
kthread_exit_wakes cur me j ts ts' t e ne h st ch = rw (gone_row cur me ts ts' e) (
    get_elem?-map (modify (modify ts me end) me clear) (wake_thread (on_thread cur me)) j t (
      get_elem?-modify_ne (modify ts me end) me j clear (λ z. ne (sym z))
      ∙ get_elem?-modify_ne ts me j end (λ z. ne (sym z))
      ∙ h)
    ∙ ap some (woken_up t (on_thread cur me) st ch))
