-- ===== src/Proc.antt =====
-- proc.c and kthread.c: the process table with its threads. Each function of the modules below is
-- the part of a C function that runs with ptable.lock held; the running process and thread, `proc`
-- and `thread`, are the arguments `cur` and `me`, places in the table.
pub mod Wakeup
pub mod Sleep
pub mod Kill
pub mod Wait
pub mod Create
pub mod Exit
pub mod Threads
pub mod Schedule
pub mod Init
mod Tests
use os.Prelude.{
  ℕ, zero, suc, ◌+◌, ◌-◌, ◌*◌, ◌%◌, ◌^◌, ◌<◌, ◌≡◌, refl, arith, Bool, true, false, not, ◌&&◌, ◌||◌,
  List, [], ◌∷◌, ◌++◌, map, Option, none, some, ◌==◌, ltb, leb, if◌then◌else◌, modify, get_elem?,
  length, ◌>>=◌,
}

abbrev pub nproc : ℕ
nproc = 64

abbrev pub nthread : ℕ
nthread = 16

-- KSTACKSIZE, and the sizes of a trap frame and of a context.
abbrev pub kstacksize : ℕ
kstacksize = 4096

abbrev pub sizeof_trapframe : ℕ
sizeof_trapframe = 76

-- enum state, for processes and threads.
pub data State : Type 0 where
  unused embryo sleeping runnable running zombie : State

abbrev pub is_unused : State → Bool
is_unused unused = true
is_unused _ = false

abbrev pub is_sleeping : State → Bool
is_sleeping sleeping = true
is_sleeping _ = false

abbrev pub is_runnable : State → Bool
is_runnable runnable = true
is_runnable _ = false

abbrev pub is_zombie : State → Bool
is_zombie zombie = true
is_zombie _ = false

-- A channel is an address: null, a process, a thread of a process, or something else.
pub data Chan : Type 0 where
  null : Chan
  on_proc : ℕ → Chan
  on_thread : ℕ → ℕ → Chan
  other : ℕ → Chan

abbrev pub same_chan : Chan → Chan → Bool
same_chan null null = true
same_chan null (on_proc b) = false
same_chan null (on_thread b c) = false
same_chan null (other b) = false
same_chan (on_proc a) null = false
same_chan (on_proc a) (on_proc b) = a == b
same_chan (on_proc a) (on_thread b c) = false
same_chan (on_proc a) (other b) = false
same_chan (on_thread a d) null = false
same_chan (on_thread a d) (on_proc b) = false
same_chan (on_thread a d) (on_thread b c) = a == b && d == c
same_chan (on_thread a d) (other b) = false
same_chan (other a) null = false
same_chan (other a) (on_proc b) = false
same_chan (other a) (on_thread b c) = false
same_chan (other a) (other b) = a == b

-- The fields of struct trapframe that these files set, and the others as one list.
pub record TrapFrame : Type 0 where
  pub eax : ℕ
  pub eip : ℕ
  pub esp : ℕ
  pub eflags : ℕ
  pub others : List ℕ

-- struct kthread. `frame` is what stands at the address `tf`; of the context only eip is not zero.
pub record Kthread : Type 0 where
  pub kstack : ℕ
  pub state : State
  pub tid : ℕ
  pub parent : Option ℕ
  pub tf : ℕ
  pub frame : TrapFrame
  pub context_eip : ℕ
  pub chan : Chan
  pub has_lock : Bool
  pub kernel_stack : Bool

-- struct proc. `threads` says whether p->threads is not null; where it points is always the row
-- `table` of ptable.tTable.
pub record Proc : Type 0 where
  pub sz : ℕ
  pub pgdir : ℕ
  pub kstack : ℕ
  pub state : State
  pub pid : ℕ
  pub parent : Option ℕ
  pub killed : Bool
  pub ofile : List (Option ℕ)
  pub cwd : Option ℕ
  pub name : List ℕ
  pub threads : Bool
  pub table : List Kthread

-- procIsReady
abbrev pub is_ready : Proc → Bool
is_ready p = elim p.state [ runnable ↦ true | running ↦ true | _ ↦ false ]

-- Following p->threads; `none` where it is null.
abbrev pub threads_of : Proc → Option (List Kthread)
threads_of p = if p.threads then some p.table else none

-- Whether a parent pointer points to the process at place i.
abbrev pub same_place : Option ℕ → ℕ → Bool
same_place none i = false
same_place (some j) i = j == i

-- ptable.tTable[i].threads[j]
abbrev pub thread_at : List Proc → ℕ → ℕ → Option Kthread
thread_at ps i j = get_elem? ps i >>= λ p. get_elem? p.table j

-- A process that can run has its threads.
abbrev pub HasThreads : List Proc → Type 0
HasThreads [] = Unit {0}
HasThreads (p ∷ ps) = (is_ready p ≡ true → p.threads ≡ true) × HasThreads ps

pub same_chan_refl : (c : Chan) → same_chan c c ≡ true
same_chan_refl null = refl
same_chan_refl (on_proc a) = ground arith
same_chan_refl (on_thread a b) = ground arith
same_chan_refl (other a) = ground arith
