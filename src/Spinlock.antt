-- ===== src/Spinlock.antt =====
-- spinlock.c: one lock and the processors that take it and give it back, in any interleaving of their
-- accesses to it, and the nesting of pushcli and popcli on one processor. The fields of the lock that
-- are there for debugging, `name` and `pcs`, are left out.
pub mod Exclusion
pub mod Nesting
mod Tests
use os.Prelude.{
  ℕ, zero, suc, ◌+◌, ◌-◌, Bool, true, false, not, ◌&&◌, List, [], ◌∷◌, Option, none, some, ◌==◌,
  if◌then◌else◌, ◌>>=◌,
}

-- ncli and intena of struct cpu, and the flag FL_IF of the processor.
pub record Cpu : Type 0 where
  pub ncli : ℕ
  pub intena : Bool
  pub interrupts : Bool

pub pushcli : Cpu → Cpu
pushcli c = record {
  ncli = c.ncli + 1;
  intena = if c.ncli == 0 then c.interrupts else c.intena;
  interrupts = false;
}

-- `none` is a panic.
pub popcli : Cpu → Option Cpu
popcli c =
    if c.interrupts
    then none
    else if c.ncli == 0
    then none
    else some (record c { ncli = c.ncli - 1; interrupts = c.ncli == 1 && c.intena })

-- Where a processor is: outside, behind the tests of acquire, behind its xchg, between acquire and
-- release, or in release before its xchg.
pub data Pc : Type 0 where
  outside spinning won critical leaving panicked : Pc

-- struct spinlock, `holder` for its field cpu, and where the processors are.
pub record World : Type 0 where
  pub locked : Bool
  pub holder : Option ℕ
  pub pc : ℕ → Pc

abbrev pub same_cpu : Option ℕ → ℕ → Bool
same_cpu none i = false
same_cpu (some j) i = j == i

pub holding : ℕ → World → Bool
holding i w = w.locked && same_cpu w.holder i

abbrev pub goes : ℕ → Pc → (ℕ → Pc) → ℕ → Pc
goes i p pc j = if i == j then p else pc j

-- The next access of processor i, by where it is.
pub act_at : Pc → ℕ → World → World
act_at outside i w = record w { pc = goes i (if holding i w then panicked else spinning) w.pc }
act_at spinning i w = if w.locked then w else record w { locked = true; pc = goes i won w.pc }
act_at won i w = record w { holder = some i; pc = goes i critical w.pc }
act_at critical i w =
    if holding i w
    then record w { holder = none; pc = goes i leaving w.pc }
    else record w { pc = goes i panicked w.pc }
act_at leaving i w = record w { locked = false; pc = goes i outside w.pc }
act_at panicked i w = w

pub act : ℕ → World → World
act i w = act_at (w.pc i) i w

-- The processors that act, in this order.
pub run : World → List ℕ → World
run w [] = w
run w (i ∷ is) = run (act i w) is

-- initlock, with every processor outside.
pub initlock : World
initlock = record { locked = false; holder = none; pc = λ i. outside }
