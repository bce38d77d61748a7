-- ===== src/Proc/Sleep.antt =====
-- sleep of proc.c with its two locks, against a process that takes lk, and calls wakeup while it
-- holds it. A step of a world is what one of the two does between two points where the other may run.
pub mod Locks
pub mod Handover
use os.Prelude.{ℕ, ◌≡◌, Bool, true, false, ◌&&◌, List, Option, none, some, if◌then◌else◌, ◌>>=◌}
use os.Proc.{is_runnable, Chan, Proc, thread_at}
use os.Proc.Wakeup.{wakeup1, fall_asleep, after_sleep}
use os.Proc.Schedule.{dispatch}

pub data Who : Type 0 where
  the_sleeper the_waker : Who

-- Where sleep is: before its first step, with both locks, with ptable.lock, before sched, switched
-- away, running again, before it takes lk again, and at its end.
pub data SleepAt : Type 0 where
  holds_lk holds_both holds_table marked away back awake returned : SleepAt

-- Where the other is: before acquire(lk), and after this, acquire(&ptable.lock), wakeup1, and the
-- two calls of release.
pub data WakeAt : Type 0 where
  outside in_lk in_table woke let_go left : WakeAt

-- The table of processes, and who holds the two locks.
pub record TwoLocks : Type 0 where
  pub procs : List Proc
  pub lk : Option Who
  pub table : Option Who
  pub sleep_at : SleepAt
  pub wake_at : WakeAt

abbrev pub is_free : Option Who → Bool
is_free none = true
is_free (some w) = false

abbrev pub when : Bool → TwoLocks → Option TwoLocks
when b w = if b then some w else none

abbrev pub can_run : ℕ → ℕ → List Proc → Bool
can_run cur me ps = elim (thread_at ps cur me) [ none ↦ false | some t ↦ is_runnable t.state ]

-- A step of sleep by thread `me` of process `cur`; `same` tells that lk is ptable.lock. sched ends
-- with the release of ptable.lock by whoever runs next; scheduler takes it before it runs the thread.
unfoldable pub sleep_from : Chan → ℕ → ℕ → Bool → SleepAt → TwoLocks → Option TwoLocks
sleep_from chan cur me same holds_lk w =
    if same
    then some (record w { sleep_at = holds_table })
    else when (is_free w.table) (record w { table = some the_sleeper; sleep_at = holds_both })
sleep_from chan cur me same holds_both w = some (record w { lk = none; sleep_at = holds_table })
sleep_from chan cur me same holds_table w =
    some (record w { procs = fall_asleep chan cur me w.procs; sleep_at = marked })
sleep_from chan cur me same marked w = some (record w { table = none; sleep_at = away })
sleep_from chan cur me same away w =
    when (can_run cur me w.procs && is_free w.table)
      (record w { procs = dispatch cur me w.procs; table = some the_sleeper; sleep_at = back })
sleep_from chan cur me same back w =
    if same
    then some (record w { procs = after_sleep cur me w.procs; sleep_at = returned })
    else some (record w { procs = after_sleep cur me w.procs; table = none; sleep_at = awake })
sleep_from chan cur me same awake w =
    when (is_free w.lk) (record w { lk = some the_sleeper; sleep_at = returned })
sleep_from chan cur me same returned w = none

unfoldable pub sleep : Chan → ℕ → ℕ → Bool → TwoLocks → Option TwoLocks
sleep chan cur me same w = sleep_from chan cur me same w.sleep_at w

-- A step of the other: acquire(lk), wakeup(chan), release(lk).
unfoldable pub wakeup_from : Chan → WakeAt → TwoLocks → Option TwoLocks
wakeup_from chan outside w = when (is_free w.lk) (record w { lk = some the_waker; wake_at = in_lk })
wakeup_from chan in_lk w =
    when (is_free w.table) (record w { table = some the_waker; wake_at = in_table })
wakeup_from chan in_table w =
    wakeup1 chan w.procs >>= λ ps. some (record w { procs = ps; wake_at = woke })
wakeup_from chan woke w = some (record w { table = none; wake_at = let_go })
wakeup_from chan let_go w = some (record w { lk = none; wake_at = left })
wakeup_from chan left w = none

-- The worlds that come about in any order of the steps of the two, with lk other than ptable.lock.
pub data Reach (chan : Chan) (cur me : ℕ) (start : TwoLocks) : TwoLocks → Type 0 where
  here : Reach chan cur me start start
  sleeps :
      {w w' : TwoLocks}
      → Reach chan cur me start w
      → sleep chan cur me false w ≡ some w'
      → Reach chan cur me start w'
  wakes :
      {w w' : TwoLocks}
      → Reach chan cur me start w
      → wakeup_from chan w.wake_at w ≡ some w'
      → Reach chan cur me start w'

abbrev pub has_woken : WakeAt → Bool
has_woken outside = false
has_woken in_lk = false
has_woken in_table = false
has_woken woke = true
has_woken let_go = true
has_woken left = true

-- sleep was called with lk held, and the other comes later.
abbrev pub start : List Proc → TwoLocks
start ps = record {
  procs = ps;
  lk = some the_sleeper;
  table = none;
  sleep_at = holds_lk;
  wake_at = outside;
}
