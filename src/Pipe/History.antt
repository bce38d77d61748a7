-- ===== src/Pipe/History.antt =====
-- The two ends over a schedule of calls.
use mathlib.Core.List.{append_assoc, append-nil}
use os.Prelude.{
  ℕ, ◌≡◌, refl, sym, ap, ◌∙◌, Bool, true, false, List, [], ◌∷◌, ◌++◌, take, arith, take-append-drop,
}
use os.Pipe.{
  Pipe, Sleepers, ReadResult, got, failed, asleep, pipeclose, Call, write, read, close, Run, step,
  run, delivered,
}
use os.Pipe.Contents.{IsValid, contents}
use os.Pipe.Write.{space, pipewrite-Writes}
use os.Pipe.Read.{piperead-Answers, Answers}

-- The bytes that a call puts into the pipe: those that fit.
pub accepts : Run → Call → List ℕ
accepts r (write killed bs) = take (space r.pipe) bs
accepts r (read killed n) = []
accepts r (close writable) = []

pub accepted : Run → List Call → List ℕ
accepted r [] = []
accepted r (c ∷ cs) = accepts r c ++ accepted (step r c) cs

read-IsValid :
    (killed : Bool) (n : ℕ) (p p' : Pipe) (r : ReadResult)
    → IsValid p
    → Answers killed n p r p'
    → IsValid p' × (contents p ≡ delivered r ++ contents p')
unfolding delivered
read-IsValid killed n p p' (got bs) v a =
    (a.0.valid, rw (a.0.taken, a.0.left) (sym (take-append-drop n (contents p))))
read-IsValid killed n p p' failed v a = rw (a.0) (v, refl)
read-IsValid killed n p p' asleep v a = rw (a.0) (v, refl)

close_keeps :
    (p : Pipe) (s : Sleepers) (w : Bool)
    → IsValid p
    → IsValid (pipeclose p s w).0 × (contents (pipeclose p s w).0 ≡ contents p)
unfolding pipeclose
close_keeps p s true v = (ground arith, refl)
close_keeps p s false v = (ground arith, refl)

-- A pipe that pipealloc made stays well formed under any calls, in any order.
pub step-IsValid : (r : Run) (c : Call) → IsValid r.pipe → IsValid (step r c).pipe
unfolding step
step-IsValid r (write k bs) v = (pipewrite-Writes k r.pipe r.sleepers bs v).valid
step-IsValid r (read k n) v =
    (read-IsValid k n _ _ _ v (piperead-Answers k r.pipe r.sleepers n v)).0
step-IsValid r (close w) v = (close_keeps r.pipe r.sleepers w v).0

step_fifo :
    (r : Run) (c : Call)
    → IsValid r.pipe
    → (step r c).taken ++ contents (step r c).pipe ≡ (r.taken ++ contents r.pipe) ++ accepts r c
unfolding step accepts
step_fifo r (write k bs) v =
    rw ((pipewrite-Writes k r.pipe r.sleepers bs v).bytes)
      (sym (append_assoc r.taken (contents r.pipe) (take (space r.pipe) bs)))
step_fifo r (read k n) v =
    rw (append_assoc r.taken, append-nil)
      (ap (◌++◌ r.taken)
        (sym (read-IsValid k n _ _ _ v (piperead-Answers k r.pipe r.sleepers n v)).1))
step_fifo r (close w) v =
    rw ((close_keeps r.pipe r.sleepers w v).1) (sym (append-nil (r.taken ++ contents r.pipe)))

-- First in, first out: whatever calls are made in whatever order, what the readers were given,
-- followed by what the pipe still holds, is what it held at first, followed by what was put in.
pub run_fifo :
    (cs : List Call) (r : Run)
    → IsValid r.pipe
    → (run r cs).taken ++ contents (run r cs).pipe ≡ (r.taken ++ contents r.pipe) ++ accepted r cs
unfolding run accepted
run_fifo [] r v = sym (append-nil (r.taken ++ contents r.pipe))
run_fifo (c ∷ cs) r v =
    run_fifo cs (step r c) (step-IsValid r c v)
    ∙ (rw (step_fifo r c v)
        (append_assoc (r.taken ++ contents r.pipe) (accepts r c) (accepted (step r c) cs)))
