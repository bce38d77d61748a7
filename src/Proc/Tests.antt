-- ===== src/Proc/Tests.antt =====
-- Runs over a small process table, and the theorems at concrete inputs.
use os.Prelude.{
  ℕ, zero, suc, ◌≡◌, refl, Bool, true, false, List, [], ◌∷◌, Option, none, some, arith, get_elem?,
  some_inj, none≢some, ap,
}
use os.Proc.{
  State, unused, sleeping, runnable, running, zombie, Chan, null, on_proc, on_thread, TrapFrame,
  Kthread, Proc, thread_at, is_unused, is_sleeping, HasThreads,
}
use os.Proc.Wakeup.{wake, wake_proc, wakeup1, fall_asleep, wakeup1_thread}
use os.Proc.Sleep.{
  SleepAt, away, woke, TwoLocks, sleep_from, sleep, wakeup_from, Reach, here, sleeps, wakes, start,
  the_waker,
}
use os.Proc.Sleep.Handover.{no_lost_wakeup}
use os.Proc.Wait.{wait, Waits, wait-Waits}
use os.Proc.Exit.{
  exit, NoChildren, adopt, adopt_all, count_live, end_proc, end_thread, close_files, live_threads,
}
use os.Proc.Exit.Effect.{exit_lem, exit_unreaped_child}
use os.Proc.Create.{fork, fork_into, allocproc, find_slot}
use os.Proc.Create.Forked.{Child, fork_lem}
use os.Proc.Schedule.{scan, find_runnable, or_later, runs}
use os.Proc.Threads.{
  find_unused, set_up, others_alive, clear, wakeup_threads, wake_thread, kthread_create,
  kthread_exit, kthread_join, gone, Join,
}
use os.Proc.Threads.Leave.{kthread_join_ended, kthread_create_ended}

abbrev frame : TrapFrame
frame = record { eax = 1; eip = 100; esp = 200; eflags = 512; others = [] }

abbrev thread : ℕ → State → Chan → Kthread
thread tid s c = record {
  kstack = 4096;
  state = s;
  tid = tid;
  parent = none;
  tf = 0;
  frame = frame;
  context_eip = 0;
  chan = c;
  has_lock = true;
  kernel_stack = true;
}

abbrev process : ℕ → State → Option ℕ → Bool → List Kthread → Proc
process pid s parent threads table = record {
  sz = 4096;
  pgdir = 8192;
  kstack = 4096;
  state = s;
  pid = pid;
  parent = parent;
  killed = false;
  ofile = none ∷ [];
  cwd = none;
  name = [];
  threads = threads;
  table = table;
}

-- init, asleep in wait; its child; and a child of that one.
abbrev init_proc : Proc
init_proc = process 1 runnable none true (thread 0 sleeping (on_proc 0) ∷ [])

abbrev parent_proc : Proc
parent_proc =
    process 2 runnable (some 0) true
      (thread 5 running null ∷ thread 6 sleeping (on_thread 1 0) ∷ [])

abbrev child_proc : Proc
child_proc = process 3 runnable (some 1) true (thread 0 runnable null ∷ [])

abbrev free_proc : Proc
free_proc = process 0 unused none false (thread 0 unused null ∷ thread 0 unused null ∷ [])

abbrev table : List Proc
table = init_proc ∷ parent_proc ∷ child_proc ∷ free_proc ∷ []

abbrev after_wakeup : List Proc
after_wakeup =
    process 1 runnable none true (thread 0 runnable (on_proc 0) ∷ [])
    ∷ parent_proc
    ∷ child_proc
    ∷ free_proc
    ∷ []

wakeup1_thread_example : thread_at after_wakeup 0 0 ≡ some (thread 0 runnable (on_proc 0))
unfolding wakeup1 wake_proc wake
wakeup1_thread_example =
    wakeup1_thread (on_proc 0) table after_wakeup 0 0 init_proc (thread 0 sleeping (on_proc 0)) refl
      refl refl

abbrev slept_woken : List Proc
slept_woken =
    init_proc
    ∷ record parent_proc {
      table = thread 5 runnable (on_thread 1 1) ∷ thread 6 sleeping (on_thread 1 0) ∷ [];
    }
    ∷ child_proc
    ∷ free_proc
    ∷ []

-- The other takes lk as soon as sleep has let it go, and waits for ptable.lock.
abbrev woken_world : TwoLocks
woken_world = record {
  procs = slept_woken;
  lk = some the_waker;
  table = some the_waker;
  sleep_at = away;
  wake_at = woke;
}

slept-Reach : Reach (on_thread 1 1) 1 0 (start table) woken_world
unfolding sleep sleep_from wakeup_from fall_asleep wakeup1 wake_proc wake
slept-Reach =
    wakes (wakes (sleeps (sleeps (wakes (sleeps (sleeps here refl) refl) refl) refl) refl) refl)
      refl

no_lost_wakeup_example :
    (t' : Kthread) × (thread_at slept_woken 1 0 ≡ some t')
    × (is_sleeping t'.state ≡ false)
    × (◌≡◌ {A = SleepAt} away away → t'.state ≡ runnable)
no_lost_wakeup_example =
    no_lost_wakeup (on_thread 1 1) 1 0 table parent_proc (thread 5 running null) woken_world refl
      refl refl slept-Reach refl

wait-Waits_example : Waits 1 false table (wait 1 false table)
wait-Waits_example = wait-Waits 1 false table

abbrev after_exit : List Proc
after_exit =
    process 1 runnable none true (thread 0 runnable (on_proc 0) ∷ [])
    ∷ record (process 2 zombie (some 0) false
        (record (thread 0 zombie null) { tid = 0 } ∷ thread 0 zombie null ∷ [])) {
          ofile = none ∷ [];
        }
    ∷ record child_proc { parent = some 0 }
    ∷ free_proc
    ∷ []

exits : exit 0 1 [] table ≡ some after_exit
unfolding exit wakeup1 wake_proc wake adopt_all adopt count_live end_proc live_threads close_files
    end_thread
exits = refl

exit_lem_example :
    NoChildren 1 after_exit
    × ((p' : Proc) × (get_elem? after_exit 1 ≡ some p')
        × (p'.state ≡ zombie)
        × (p'.threads ≡ false)
        × ((j : ℕ) (t : Kthread) → get_elem? p'.table j ≡ some t → t.state ≡ zombie))
exit_lem_example = exit_lem 0 1 [] table after_exit exits

-- A grandchild of init exits without having waited for its child, which has exited.
abbrev dead_child : Proc
dead_child = process 4 zombie (some 2) false (thread 0 zombie null ∷ [])

abbrev family : List Proc
family = init_proc ∷ parent_proc ∷ child_proc ∷ dead_child ∷ []

exit_unreaped_child_example :
    (ps' : List Proc) × (exit 0 2 (1 ∷ 0 ∷ 5 ∷ []) family ≡ some ps')
    × (get_elem? ps' 3 ≡ some (record dead_child { parent = some 0 }))
    × (thread_at ps' 0 0 ≡ some (thread 0 sleeping (on_proc 0)))
exit_unreaped_child_example =
    exit_unreaped_child 0 2 3 0 (1 ∷ 0 ∷ 5 ∷ []) family child_proc dead_child init_proc
      (thread 0 sleeping (on_proc 0)) ((λ e. refl), ((λ e. refl), ((λ e. refl), ((λ e. cc e), tt))))
      (λ e. absurd (omega arith)) refl (λ e. let x = some_inj e in absurd (omega arith))
      (λ e. absurd (omega arith)) refl refl refl refl refl refl refl

fork_lem_example :
    (◌≡◌ {A = ℕ} 4 4)
    × Child 1 parent_proc
        (thread 5 running null)
        4
        table
        (fork 77
          (some 12288)
          frame
          (some 16384)
          1
          parent_proc
          (thread 5 running null)
          4
          table).procs
unfolding fork fork_into allocproc find_slot
fork_lem_example =
    fork_lem 77 (some 12288) frame (some 16384) 1 parent_proc (thread 5 running null) 4 4 table refl

abbrev row : List Kthread
row = thread 5 running null ∷ thread 6 sleeping (on_thread 1 0) ∷ thread 0 unused null ∷ []

abbrev row_created : List Kthread
row_created =
    thread 5 running null
    ∷ thread 6 sleeping (on_thread 1 0)
    ∷ record (thread 7 runnable null) {
      parent = some 1;
      tf = 8020;
      frame = record frame { eip = 300; esp = 8192; eflags = 512 };
      context_eip = 77;
    }
    ∷ []

creates : kthread_create 77 1 7 300 4192 4000 frame row ≡ some (7, 8, row_created)
unfolding kthread_create find_unused set_up
creates = refl

-- Thread 5 ends while thread 6 sleeps in a join for it.
abbrev row_ended : List Kthread
row_ended =
    record (thread 0 zombie null) { has_lock = false; kernel_stack = false }
    ∷ thread 6 runnable (on_thread 1 0)
    ∷ thread 0 unused null
    ∷ []

ends : kthread_exit 1 0 row ≡ gone row_ended
unfolding kthread_exit others_alive clear wakeup_threads wake_thread
ends = refl

only_five : (j : ℕ) (u : Kthread) → get_elem? row j ≡ some u → u.tid ≡ 5 → j ≡ 0
only_five zero u e q = refl
only_five (suc zero) u e q = absurd (omega (arith, ap (λ (t : Kthread). t.tid) (some_inj e)))
only_five (suc (suc zero)) u e q = absurd (omega (arith, ap (λ (t : Kthread). t.tid) (some_inj e)))
only_five (suc (suc (suc j))) u e q = absurd (none≢some e)

kthread_join_ended_example : kthread_join 5 false row_ended ≡ Join.failed
kthread_join_ended_example =
    kthread_join_ended 1 0 false row row_ended (thread 5 running null) refl (λ e. omega arith)
      only_five ends

abbrev full_row : List Kthread
full_row = thread 5 running null ∷ thread 6 sleeping (on_thread 1 0) ∷ []

abbrev full_row_ended : List Kthread
full_row_ended =
    record (thread 0 zombie null) { has_lock = false; kernel_stack = false }
    ∷ thread 6 runnable (on_thread 1 0)
    ∷ []

full_ends : kthread_exit 1 0 full_row ≡ gone full_row_ended
unfolding kthread_exit others_alive clear wakeup_threads wake_thread
full_ends = refl

all_used : (j : ℕ) (u : Kthread) → get_elem? full_row j ≡ some u → is_unused u.state ≡ false
all_used zero u e = rw (← some_inj e) refl
all_used (suc zero) u e = rw (← some_inj e) refl
all_used (suc (suc j)) u e = absurd (none≢some e)

kthread_create_ended_example : kthread_create 77 1 7 300 4192 4000 frame full_row_ended ≡ none
kthread_create_ended_example =
    kthread_create_ended 1 0 77 7 300 4192 4000 frame full_row full_row_ended all_used full_ends

table-HasThreads : HasThreads table
table-HasThreads = (λ h. refl, (λ h. refl, (λ h. refl, (λ h. cc, _))))

-- The thread of init and the second one of its child sleep, so that the third process is next.
scan_run : scan table 0 ≡ runs 2 0
unfolding scan find_runnable or_later
scan_run = refl
