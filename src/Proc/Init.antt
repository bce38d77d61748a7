-- ===== src/Proc/Init.antt =====
-- userinit of proc.c. The page and the page directory that kalloc and setupkvm return are arguments
-- (`none` for 0), and so is the directory that namei finds; inituvm loads the program, which is not
-- part of the process table.
use os.Prelude.{ℕ, List, [], ◌∷◌, Option, some, modify, ◌>>=◌}
use os.Proc.{runnable, TrapFrame, Proc}
use os.Proc.Create.{allocproc}
use os.Proc.Threads.{fl_if}

abbrev pub pgsize : ℕ
pgsize = 4096

-- SEG_UCODE and SEG_UDATA as selectors with DPL_USER, where they stand among the fields that
-- `others` lists: edi, esi, ebp, oesp, ebx, edx, ecx, gs, fs, es, ds, trapno, err, cs, ss.
abbrev pub user_segments : List ℕ
user_segments = 0 ∷ 0 ∷ 0 ∷ 0 ∷ 0 ∷ 0 ∷ 0 ∷ 0 ∷ 0 ∷ 43 ∷ 43 ∷ 0 ∷ 0 ∷ 35 ∷ 43 ∷ []

abbrev pub first_frame : TrapFrame
first_frame = record { eax = 0; eip = 0; esp = pgsize; eflags = fl_if; others = user_segments }

-- "initcode"
abbrev pub initcode : List ℕ
initcode = 105 ∷ 110 ∷ 105 ∷ 116 ∷ 99 ∷ 111 ∷ 100 ∷ 101 ∷ 0 ∷ []

unfoldable pub make_first : ℕ → Option ℕ → Proc → Proc
make_first pgdir cwd p = record p {
  pgdir = pgdir;
  sz = pgsize;
  table = modify p.table 0 (λ t. record t { frame = first_frame; state = runnable });
  name = initcode;
  cwd = cwd;
  state = runnable;
}

-- initproc, the next pid and the table; `none` is the panic for want of a page directory, or that
-- allocproc answered 0, which is not tested.
unfoldable pub userinit :
    ℕ → Option ℕ → TrapFrame → ℕ → Option ℕ → Option ℕ → List Proc → Option (ℕ × ℕ × List Proc)
userinit forkret page junk nextpid pgdir cwd ps =
    let a = allocproc forkret page junk nextpid ps in
    a.place >>= λ i. pgdir >>= λ d. some (i, a.nextpid, modify a.procs i (make_first d cwd))
