-- ===== src/Pipe.antt =====
-- pipe.c: a pipe is a ring of PIPESIZE bytes under two counters that run over the unsigned ints.
-- A call runs with the pipe's lock held until it returns or sleeps, so it is one step; a call that
-- sleeps hands back what it has left to do, and is made again with that when it is woken.
pub mod Contents
pub mod Write
pub mod Read
pub mod Wakeup
pub mod History
mod Tests
use os.Prelude.{
  ℕ, zero, suc, ◌+◌, ◌-◌, ◌%◌, ◌^◌, Bool, true, false, not, ◌&&◌, ◌||◌, List, [], ◌∷◌, ◌++◌, ◌==◌,
  if◌then◌else◌, get_or, set, replicate,
}

abbrev pub pipesize : ℕ
pipesize = 512

-- Addition of unsigned ints.
abbrev pub add_uint : ℕ → ℕ → ℕ
add_uint a b = (a + b) % 2 ^ 32

-- struct pipe; the lock is held by the step that runs.
pub record Pipe : Type 0 where
  pub bytes : List ℕ
  pub nread : ℕ
  pub nwrite : ℕ
  pub readopen : Bool
  pub writeopen : Bool

-- What pipealloc makes of the page that kalloc returned, whose bytes are what was left there.
pub fresh : List ℕ → Pipe
fresh page = record { bytes = page; nread = 0; nwrite = 0; readopen = true; writeopen = true }

-- How many threads sleep on `&p->nread` and on `&p->nwrite`.
pub record Sleepers : Type 0 where
  pub on_nread : ℕ
  pub on_nwrite : ℕ

pub wakeup_nread : Sleepers → Sleepers
wakeup_nread s = record s { on_nread = 0 }

pub wakeup_nwrite : Sleepers → Sleepers
wakeup_nwrite s = record s { on_nwrite = 0 }

-- sleep(&p->nread, &p->lock) and sleep(&p->nwrite, &p->lock), up to the point where they block.
pub sleep_nread : Sleepers → Sleepers
sleep_nread s = record s { on_nread = s.on_nread + 1 }

pub sleep_nwrite : Sleepers → Sleepers
sleep_nwrite s = record s { on_nwrite = s.on_nwrite + 1 }

-- The test of the `while` in pipewrite.
abbrev pub is_full : Pipe → Bool
is_full p = p.nwrite == add_uint p.nread pipesize

abbrev pub is_empty : Pipe → Bool
is_empty p = p.nread == p.nwrite

-- p->data[p->nwrite++ % PIPESIZE] = byte
pub put : Pipe → ℕ → Pipe
put p byte = record p {
  bytes = set p.bytes (p.nwrite % pipesize) byte;
  nwrite = add_uint p.nwrite 1;
}

-- p->nread++
pub advance : Pipe → Pipe
advance p = record p { nread = add_uint p.nread 1 }

-- `returned` stands for n; `asleep` carries addr[i..n).
pub data WriteResult : Type 0 where
  returned failed : WriteResult
  asleep : List ℕ → WriteResult

-- The body of the inner `while` of pipewrite, whose test to give up has the value `refuse`.
when_full : Bool → Pipe → Sleepers → List ℕ → WriteResult × Pipe × Sleepers
unfolding sleep_nwrite wakeup_nread
when_full refuse p s rest =
    if refuse then (failed, p, s) else (asleep rest, p, sleep_nwrite (wakeup_nread s))

-- The loop of pipewrite over addr[i..n), with its early return and its sleep.
pub write_loop : Bool → Pipe → Sleepers → List ℕ → WriteResult × Pipe × Sleepers
unfolding when_full
write_loop killed p s [] = (returned, p, wakeup_nread s)
write_loop killed p s (b ∷ bs) =
    if is_full p
    then when_full (not p.readopen || killed) p s (b ∷ bs)
    else write_loop killed (put p b) s bs

pub pipewrite : Bool → Pipe → Sleepers → List ℕ → WriteResult × Pipe × Sleepers
unfolding write_loop
pipewrite killed p s addr = write_loop killed p s addr

-- `got` carries addr[0..i).
pub data ReadResult : Type 0 where
  got : List ℕ → ReadResult
  failed asleep : ReadResult

-- The copying loop of piperead, for at most n bytes.
pub read_loop : ℕ → Pipe → List ℕ × Pipe
read_loop zero p = ([], p)
read_loop (suc n) p =
    let (bs, p') = read_loop n (advance p) in
    if is_empty p then ([], p) else (get_or p.bytes (p.nread % pipesize) 0 ∷ bs, p')

-- The part of piperead behind the test of its `while`, whose value is `wait`.
after_loop_test : Bool → Bool → Pipe → Sleepers → ℕ → ReadResult × Pipe × Sleepers
unfolding sleep_nread wakeup_nwrite
after_loop_test killed wait p s n =
    if wait
    then if killed then (failed, p, s) else (asleep, p, sleep_nread s)
    else let (bs, p') = read_loop n p in (got bs, p', wakeup_nwrite s)

pub piperead : Bool → Pipe → Sleepers → ℕ → ReadResult × Pipe × Sleepers
unfolding after_loop_test
piperead killed p s n = after_loop_test killed (is_empty p && p.writeopen) p s n

-- The last component says whether the page was freed.
pub pipeclose : Pipe → Sleepers → Bool → Pipe × Sleepers × Bool
unfolding wakeup_nread wakeup_nwrite
pipeclose p s writable =
    if writable
    then (record p { writeopen = false }, wakeup_nread s, not p.readopen)
    else (record p { readopen = false }, wakeup_nwrite s, not p.writeopen)

-- The calls that the two ends make; the flag of the first two says that the caller was killed.
pub data Call : Type 0 where
  write : Bool → List ℕ → Call
  read : Bool → ℕ → Call
  close : Bool → Call

pub delivered : ReadResult → List ℕ
delivered (got bs) = bs
delivered failed = []
delivered asleep = []

-- A pipe in use, with all the bytes that its readers were given, oldest first.
pub record Run : Type 0 where
  pub pipe : Pipe
  pub sleepers : Sleepers
  pub taken : List ℕ

pub step : Run → Call → Run
unfolding pipewrite piperead pipeclose delivered
step r (write killed bs) =
    let (_, p, s) = pipewrite killed r.pipe r.sleepers bs in record r { pipe = p; sleepers = s }
step r (read killed n) =
    let (answer, p, s) = piperead killed r.pipe r.sleepers n in
    record { pipe = p; sleepers = s; taken = r.taken ++ delivered answer }
step r (close writable) =
    let (p, s, _) = pipeclose r.pipe r.sleepers writable in record r { pipe = p; sleepers = s }

pub run : Run → List Call → Run
run r [] = r
run r (c ∷ cs) = run (step r c) cs
