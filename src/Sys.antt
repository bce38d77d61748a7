-- ===== src/Sys.antt =====
-- sysproc.c: the system calls on processes, threads and time, by the arguments that they read from
-- the user's stack. `ticks` is the counter of timer interrupts, a uint.
pub mod Sleep
mod Tests
use os.Prelude.{
  ℕ, zero, suc, ◌+◌, ◌-◌, ◌%◌, ◌^◌, Bool, true, false, List, [], ◌∷◌, Option, none, some, ltb,
  if◌then◌else◌, ◌>>=◌,
}
use os.Args.{argint}
use os.Proc.{Proc, Kthread, TrapFrame}
use os.Proc.Kill.{Kill, no_such, kill}
use os.Proc.Threads.{kthread_create, Join, kthread_join}

pub kill_arg : List Proc → Option ℕ → Kill
kill_arg ps none = no_such
kill_arg ps (some pid) = kill pid ps

-- -1 is the answer `no_such` here too.
pub sys_kill : (ℕ → ℕ) → ℕ → ℕ → List Proc → Kill
sys_kill mem sz esp ps = kill_arg ps (argint mem sz esp 0)

pub sys_getpid : Proc → ℕ
sys_getpid p = p.pid

-- timer interrupts on processor 0, of trap.c
pub tick : ℕ → ℕ
tick ticks = (ticks + 1) % 2 ^ 32

-- What sys_sleep comes to: 0, -1, or a sleep on `ticks`, to go on at the test of the loop.
pub data Nap : Type 0 where
  over failed asleep : Nap

-- The loop of sys_sleep from its test on; n, an int, is compared as a uint.
pub sleep_test : Bool → ℕ → ℕ → ℕ → Nap
sleep_test is_killed ticks ticks0 n =
    if ltb ((ticks + 2 ^ 32 - ticks0) % 2 ^ 32) n
    then if is_killed then failed else asleep
    else over

pub sleep_for : Bool → ℕ → Option ℕ → Nap
sleep_for is_killed ticks none = failed
sleep_for is_killed ticks (some n) = sleep_test is_killed ticks ticks n

pub sys_sleep : (ℕ → ℕ) → ℕ → ℕ → Bool → ℕ → Nap
sys_sleep mem sz esp is_killed ticks = sleep_for is_killed ticks (argint mem sz esp 0)

pub sys_uptime : ℕ → ℕ
sys_uptime ticks = ticks

pub sys_kthread_create :
    (ℕ → ℕ) → ℕ → ℕ → ℕ → ℕ → ℕ → TrapFrame → List Kthread → Option (ℕ × ℕ × List Kthread)
sys_kthread_create mem sz esp forkret cur nexttid frame ts = argint mem sz esp 0 >>= λ start_func.
    argint mem sz esp 1 >>= λ stack. argint mem sz esp 2 >>= λ stack_size.
    kthread_create forkret cur nexttid start_func stack stack_size frame ts

pub join_arg : Bool → List Kthread → Option ℕ → Join
join_arg is_killed ts none = Join.failed
join_arg is_killed ts (some id) = kthread_join id is_killed ts

pub sys_kthread_join : (ℕ → ℕ) → ℕ → ℕ → Bool → List Kthread → Join
sys_kthread_join mem sz esp is_killed ts = join_arg is_killed ts (argint mem sz esp 0)
