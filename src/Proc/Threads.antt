-- ===== src/Proc/Threads.antt =====
-- kthread.c: the threads of one process, in its row `ts` of the thread table. `me` is the place of
-- the running thread in the row, `cur` that of its process in ptable.
pub mod Create
pub mod Leave
use os.Prelude.{
  ℕ, zero, suc, ◌+◌, ◌-◌, ◌*◌, ◌%◌, ◌^◌, ◌<◌, ◌≤◌, ◌≡◌, ◌≢◌, ◌⊎◌, ◌↔◌, inl, inr, refl, sym, ap, ◌∙◌,
  Bool, true, false, not, ◌&&◌, ◌||◌, List, [], ◌∷◌, ◌++◌, map, Option, none, some, ◌==◌, ltb, leb,
  if◌then◌else◌, modify, get_elem?, length, ◌>>=◌, arith, Bool-cases, Option-cases, map_at,
  modify_at, get_elem?-map, >>=-eq-some, some_inj, none≢some, get_elem?-modify_self,
  get_elem?-modify_ne, ==_of_eq, ==_of_ne,
}
use os.Proc.{
  State, unused, embryo, sleeping, runnable, running, zombie, is_unused, is_sleeping, is_runnable,
  is_zombie, Chan, null, on_proc, on_thread, other, same_chan, Kthread, Proc, is_ready, threads_of,
  nproc, nthread, same_chan_refl,
}
use os.Proc.{TrapFrame, sizeof_trapframe}

-- FL_IF of mmu.h
abbrev pub fl_if : ℕ
fl_if = 0x200

-- The first UNUSED slot, in the search loop.
unfoldable pub find_unused : List Kthread → ℕ → Option ℕ
find_unused [] i = none
find_unused (t ∷ ts) i =
    let later = find_unused ts (i + 1) in if is_unused t.state then some i else later

-- What kthread_create makes of the slot that it found, for the caller's trap frame `frame`.
unfoldable pub set_up : ℕ → ℕ → ℕ → ℕ → ℕ → ℕ → TrapFrame → Kthread → Kthread
set_up forkret cur tid start_func stack stack_size frame t = record t {
  tid = tid;
  tf = (t.kstack + stack_size + 2 ^ 32 - sizeof_trapframe) % 2 ^ 32;
  frame = record frame { eip = start_func; esp = (stack + stack_size) % 2 ^ 32; eflags = fl_if };
  context_eip = forkret;
  parent = some cur;
  state = runnable;
}

-- kthread_create; `none` is -1. The answer is the tid, the next tid and the row.
unfoldable pub kthread_create :
    ℕ → ℕ → ℕ → ℕ → ℕ → ℕ → TrapFrame → List Kthread → Option (ℕ × ℕ × List Kthread)
kthread_create forkret cur nexttid start_func stack stack_size frame ts = find_unused ts 0 >>= λ j.
    some (
      nexttid,
      (nexttid + 1) % 2 ^ 32,
      modify ts j (set_up forkret cur nexttid start_func stack stack_size frame),
    )

-- kthread_id
unfoldable pub kthread_id : ℕ → List Kthread → Option ℕ
kthread_id me ts = get_elem? ts me >>= λ t. some t.tid

-- The body of the loop of wakeupThreads.
unfoldable pub wake_thread : Chan → Kthread → Kthread
wake_thread chan t =
    if is_sleeping t.state && same_chan t.chan chan then record t { state = runnable } else t

unfoldable pub wakeup_threads : Chan → List Kthread → List Kthread
wakeup_threads chan ts = map (wake_thread chan) ts

-- The search of kthread_exit for a thread that is still alive.
unfoldable pub others_alive : List Kthread → Bool
others_alive [] = false
others_alive (t ∷ ts) = not (is_zombie t.state || is_unused t.state) || others_alive ts

unfoldable pub clear : Kthread → Kthread
clear t = record t {
  state = zombie;
  kernel_stack = false;
  parent = none;
  has_lock = false;
  tf = 0;
  tid = 0;
}

-- kthread_exit up to sched, or up to its call of exit for the last thread.
pub data Ended : Type 0 where
  last : List Kthread → Ended
  gone : List Kthread → Ended

unfoldable pub kthread_exit : ℕ → ℕ → List Kthread → Ended
kthread_exit cur me ts =
    let ts1 = modify ts me (λ t. record t { state = zombie }) in
    if others_alive ts1
    then gone (wakeup_threads (on_thread cur me) (modify ts1 me clear))
    else last ts1

-- One scan of kthread_join: the thread joined, -1, or a sleep on the thread at a place.
pub data Join : Type 0 where
  joined : ℕ → List Kthread → Join
  failed : Join
  sleeps : ℕ → Join

-- The slot of a thread that was joined; -1 is its tid.
unfoldable pub release : Kthread → Kthread
release t = record t { tid = 2 ^ 32 - 1; parent = none }

unfoldable pub put_back : Kthread → Join → Join
put_back t (joined tid ts) = joined tid (t ∷ ts)
put_back t failed = failed
put_back t (sleeps j) = sleeps j

-- The loop over the threads from place i on; `seen` is threadFound, if there was one.
unfoldable pub join_scan : ℕ → Bool → Option ℕ → List Kthread → ℕ → Join
join_scan id is_killed none [] i = failed
join_scan id is_killed (some j) [] i = if is_killed then failed else sleeps j
join_scan id is_killed seen (t ∷ ts) i =
    let later =
      put_back t (join_scan id is_killed (if t.tid == id then some i else seen) ts (i + 1)) in
    if t.tid == id && is_zombie t.state then joined t.tid (release t ∷ ts) else later

unfoldable pub kthread_join : ℕ → Bool → List Kthread → Join
kthread_join id is_killed ts = join_scan id is_killed none ts 0
