-- ===== src/Pipe/Tests.antt =====
-- Runs of the pipe on small inputs, and its theorems at concrete inputs.
use os.Prelude.{
  ℕ, ◌-◌, ◌^◌, ◌≡◌, refl, inl, inr, true, false, List, [], ◌∷◌, ◌++◌, replicate, take,
  length-replicate, arith,
}
use os.Pipe.{
  Pipe, Sleepers, WriteResult, pipesize, pipewrite, piperead, Call, write, read, Run, run, step,
  put, read_loop, advance,
}
use os.Pipe.Contents.{IsValid, contents}
use os.Pipe.Write.{Writes, pipewrite-Writes}
use os.Pipe.Read.{Answers, piperead-Answers}
use os.Pipe.Wakeup.{HasReason, pipewrite_lost_wakeup}
use os.Pipe.History.{accepted, run_fifo}

-- An empty pipe whose counters are about to wrap.
abbrev wrapping : Pipe
wrapping = record {
  bytes = replicate pipesize 0;
  nread = 2 ^ 32 - 1;
  nwrite = 2 ^ 32 - 1;
  readopen = true;
  writeopen = true;
}

abbrev nobody : Sleepers
nobody = record { on_nread = 0; on_nwrite = 0 }

abbrev one_reader : Sleepers
one_reader = record { on_nread = 1; on_nwrite = 0 }

wrapping-IsValid : IsValid wrapping
wrapping-IsValid = record {
  storage = length-replicate {A = ℕ} pipesize 0;
  nread_in = omega arith;
  nwrite_in = omega arith;
  bounded = omega arith;
}

abbrev in_use : Run
in_use = record { pipe = wrapping; sleepers = nobody; taken = [] }

abbrev calls : List Call
calls = write false (7 ∷ 8 ∷ 9 ∷ []) ∷ read false 2 ∷ write false (10 ∷ []) ∷ []

run_fifo_example :
    (run in_use calls).taken ++ contents (run in_use calls).pipe
    ≡ ([] ++ contents wrapping) ++ accepted in_use calls
run_fifo_example = run_fifo calls in_use wrapping-IsValid

pipewrite-Writes_example :
    Writes false wrapping
      (7 ∷ 8 ∷ [])
      (pipewrite false wrapping nobody (7 ∷ 8 ∷ [])).0
      (pipewrite false wrapping nobody (7 ∷ 8 ∷ [])).1
pipewrite-Writes_example = pipewrite-Writes false wrapping nobody (7 ∷ 8 ∷ []) wrapping-IsValid

piperead-Answers_example :
    Answers false 3 wrapping
      (piperead false wrapping nobody 3).0
      (piperead false wrapping nobody 3).1
piperead-Answers_example = piperead-Answers false wrapping nobody 3 wrapping-IsValid

one_reader-HasReason : HasReason wrapping one_reader
one_reader-HasReason = record { readers = inr (omega arith, refl); writers = inl refl }

pipewrite_lost_wakeup_example :
    ((pipewrite true wrapping one_reader (replicate 513 7)).0 ≡ WriteResult.failed)
    × ((pipewrite true wrapping one_reader (replicate 513 7)).2 ≡ one_reader)
    × (contents (pipewrite true wrapping one_reader (replicate 513 7)).1
        ≡ take pipesize (replicate 513 7))
pipewrite_lost_wakeup_example =
    pipewrite_lost_wakeup wrapping one_reader (replicate 513 7) wrapping-IsValid refl
      (omega (arith, length-replicate {A = ℕ} 513 7))

-- The counters wrap between the first byte and the last.
wraps : (run in_use calls).taken ≡ 7 ∷ 8 ∷ []
unfolding run step put read_loop advance
wraps = refl

still_held : contents (run in_use calls).pipe ≡ 9 ∷ 10 ∷ []
unfolding run step put read_loop advance
still_held = refl
