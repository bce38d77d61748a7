-- ===== src/Proc/Create.antt =====
-- allocproc and fork of proc.c. What kalloc, copyuvm, filedup and idup do is not modelled here: the
-- page and the page directory that the first two return are arguments (`none` for 0), and a file or
-- directory that is duplicated is the same reference once more.
pub mod Forked
use os.Prelude.{
  ℕ, zero, suc, ◌+◌, ◌-◌, ◌*◌, ◌%◌, ◌^◌, ◌<◌, ◌≤◌, ◌≡◌, ◌≢◌, ◌⊎◌, ◌↔◌, inl, inr, refl, sym, ap, ◌∙◌,
  Bool, true, false, not, ◌&&◌, ◌||◌, List, [], ◌∷◌, ◌++◌, map, Option, none, some, ◌==◌, ltb, leb,
  if◌then◌else◌, modify, get_elem?, length, ◌>>=◌, arith, Bool-cases, Option-cases, map_at,
  modify_at, get_elem?-map, >>=-eq-some, some_inj, none≢some, get_elem?-modify_self,
  get_elem?-modify_ne, ==_of_eq, ==_of_ne,
}
use os.Proc.{
  State, unused, embryo, sleeping, runnable, running, zombie, is_unused, is_sleeping, is_runnable,
  is_zombie, Chan, null, on_proc, on_thread, other, same_chan, Kthread, Proc, is_ready, threads_of,
  nproc, nthread, same_place, TrapFrame, sizeof_trapframe, kstacksize,
}

-- The search of allocproc for an UNUSED slot.
unfoldable pub find_slot : List Proc → ℕ → Option ℕ
find_slot [] i = none
find_slot (p ∷ ps) i =
    let later = find_slot ps (i + 1) in if is_unused p.state then some i else later

-- The loop that clears the threads of the slot.
unfoldable pub clear_thread : Kthread → Kthread
clear_thread t = record t { state = unused; has_lock = true }

-- The first thread of a new process, on the stack at `page`; `junk` is what the page holds where the
-- trap frame will be.
unfoldable pub main_thread : ℕ → ℕ → TrapFrame → Kthread → Kthread
main_thread forkret page junk t = record t {
  tf = page + kstacksize - sizeof_trapframe;
  frame = junk;
  context_eip = forkret;
  kstack = page;
  kernel_stack = true;
  has_lock = true;
}

-- The slot once it is claimed, and once it has a stack.
unfoldable pub claim : ℕ → Proc → Proc
claim pid p = record p { state = embryo; threads = true; pid = pid }

unfoldable pub furnish : ℕ → ℕ → TrapFrame → Proc → Proc
furnish forkret page junk p = record p {
  kstack = page;
  table = modify (map clear_thread p.table) 0 (main_thread forkret page junk);
}

-- allocproc: the table, and the place of the new process unless it answers 0.
pub record Alloc : Type 0 where
  pub place : Option ℕ
  pub nextpid : ℕ
  pub procs : List Proc

unfoldable pub allocproc : ℕ → Option ℕ → TrapFrame → ℕ → List Proc → Alloc
allocproc forkret page junk nextpid ps = elim (find_slot ps 0) [
  | none ↦ record { place = none; nextpid = nextpid; procs = ps }
  | some i ↦ elim page [
    | none ↦ record {
      place = none;
      nextpid = (nextpid + 1) % 2 ^ 32;
      procs = modify ps i (λ p. record (claim nextpid p) { kstack = 0; state = unused });
    }
    | some a ↦ record {
      place = some i;
      nextpid = (nextpid + 1) % 2 ^ 32;
      procs = modify ps i (λ p. furnish forkret a junk (claim nextpid p));
    }
  ]
]

-- The loop of fork over the open files: those of the parent, where it has one.
unfoldable pub dup_files : List (Option ℕ) → List (Option ℕ) → List (Option ℕ)
dup_files [] news = news
dup_files (old ∷ olds) [] = []
dup_files (none ∷ olds) (new ∷ news) = new ∷ dup_files olds news
dup_files (some f ∷ olds) (new ∷ news) = some f ∷ dup_files olds news

-- What fork makes of the child's threads, for the thread that calls it.
unfoldable pub child_threads : ℕ → Kthread → List Kthread → List Kthread
child_threads place caller [] = []
child_threads place caller (t ∷ ts) =
    record t {
      parent = some place;
      kstack = caller.kstack;
      frame = record caller.frame { eax = 0 };
      kernel_stack = caller.kernel_stack;
      state = runnable;
    }
    ∷ map clear_thread ts

unfoldable pub child : ℕ → ℕ → ℕ → Proc → Kthread → Proc → Proc
child cur place pgdir parent caller np = record np {
  pgdir = pgdir;
  sz = parent.sz;
  parent = some cur;
  table = child_threads place caller np.table;
  ofile = dup_files parent.ofile np.ofile;
  cwd = parent.cwd;
  name = parent.name;
  state = runnable;
}

-- fork by the thread `caller` of the process `parent` at `cur`: the pid, unless it answers -1, and
-- what becomes of the table.
pub record Fork : Type 0 where
  pub pid : Option ℕ
  pub nextpid : ℕ
  pub procs : List Proc

unfoldable pub fork_into : ℕ → Option ℕ → Proc → Kthread → ℕ → Alloc → Fork
fork_into cur copied parent caller pid a = elim a.place [
  | none ↦ record { pid = none; nextpid = a.nextpid; procs = a.procs }
  | some i ↦ elim copied [
    | none ↦ record {
      pid = none;
      nextpid = a.nextpid;
      procs = modify a.procs i (λ np. record np { kstack = 0; state = unused });
    }
    | some pgdir ↦ record {
      pid = some pid;
      nextpid = a.nextpid;
      procs = modify a.procs i (child cur i pgdir parent caller);
    }
  ]
]

unfoldable pub fork :
    ℕ → Option ℕ → TrapFrame → Option ℕ → ℕ → Proc → Kthread → ℕ → List Proc → Fork
fork forkret page junk copied cur parent caller nextpid ps =
    fork_into cur copied parent caller nextpid (allocproc forkret page junk nextpid ps)
