-- ===== src/Pipe/Wakeup.antt =====
-- Sleep and wakeup in pipe.c: who sleeps has a reason to, unless a write was cut short.
use os.Prelude.{
  ℕ, ◌≤◌, ◌<◌, ◌≡◌, ◌≢◌, refl, Bool, true, false, not, ◌&&◌, ◌||◌, List, [], ◌∷◌, length, take, ap,
  ◌⊎◌, ◌∙◌, inl, inr, Bool-cases, arith, ◌↔◌, length-append,
}
use os.Pipe.{
  Pipe, Sleepers, WriteResult, asleep, returned, pipesize, put, is_empty, is_full, when_full,
  write_loop, pipewrite, piperead, after_loop_test, pipeclose,
}
use os.Pipe.Contents.{IsValid, count, contents, put-IsValid, length-window}
use os.Pipe.Write.{is_full-space, is_full-room, pipewrite-Writes, space, Writes, answer}

-- A thread sleeps on `nread` only at an empty pipe that can still be written, and on `nwrite` only
-- at a full pipe that can still be read.
pub record HasReason (p : Pipe) (s : Sleepers) : Type 0 where
  pub readers : (s.on_nread ≡ 0) ⊎ ((count p ≡ 0) × (p.writeopen ≡ true))
  pub writers : (s.on_nwrite ≡ 0) ⊎ ((count p ≡ pipesize) × (p.readopen ≡ true))

-- How the loop of pipewrite leaves the sleepers, by its answer.
abbrev Left : Sleepers → WriteResult → Pipe → Sleepers → Type 0
Left s returned p' s' = (s'.on_nread ≡ 0) × (s'.on_nwrite ≡ s.on_nwrite)
Left s WriteResult.failed p' s' = s' ≡ s
Left s (asleep rest) p' s' = (s'.on_nread ≡ 0) × (count p' ≡ pipesize) × (p'.readopen ≡ true)

when_full-Left :
    (killed g : Bool) (p : Pipe) (s : Sleepers) (b : ℕ) (bs : List ℕ)
    → count p ≡ pipesize
    → g ≡ (not p.readopen || killed)
    → let (r, p', s') = when_full g p s (b ∷ bs) in Left s r p' s'
unfolding when_full
when_full-Left killed true p s b bs c e = refl
when_full-Left killed false p s b bs c e = (refl, c, ground arith)

write_loop-Left :
    (killed : Bool) (p : Pipe) (s : Sleepers) (bs : List ℕ)
    → IsValid p
    → let (r, p', s') = write_loop killed p s bs in Left s r p' s'
unfolding write_loop
write_loop-Left killed p s [] v = (refl, refl)
write_loop-Left killed p s (b ∷ bs) v = elim (Bool-cases (is_full p)) [
  | inl e ↦
      rw e (when_full-Left killed _ p s b bs (omega (arith, is_full-space p v e, v.bounded)) refl)
  | inr e ↦ rw e (write_loop-Left killed (put p b) s bs (put-IsValid p b v (is_full-room p v e)))
]

-- A write takes nothing out.
count-le-Writes :
    (killed : Bool) (p : Pipe) (bs : List ℕ) (r : WriteResult) (p' : Pipe)
    → Writes killed p bs r p'
    → count p ≤ count p'
count-le-Writes killed p bs r p' w = omega (
  arith,
  ap length w.bytes,
  length-append (contents p) (take (space p) bs),
  length-window p.bytes p.nread (count p),
  length-window p'.bytes p'.nread (count p'),
)

Left-HasReason :
    (killed : Bool) (p : Pipe) (s : Sleepers) (bs : List ℕ) (r : WriteResult) (p' : Pipe)
    (s' : Sleepers)
    → HasReason p s
    → Left s r p' s'
    → Writes killed p bs r p'
    → (r ≢ WriteResult.failed) ⊎ (s.on_nread ≡ 0)
    → HasReason p' s'
Left-HasReason killed p s bs returned p' s' h l w ok =
    ground (arith, count-le-Writes killed p bs returned p' w, w.valid.bounded, w.readopen)
Left-HasReason killed p s bs WriteResult.failed p' s' h l w ok = ground (
  arith,
  count-le-Writes killed p bs WriteResult.failed p' w,
  w.valid.bounded,
  w.readopen,
  w.writeopen,
)
Left-HasReason killed p s bs (asleep rest) p' s' h l w ok = ground arith

-- Where a reader sleeps only while the pipe is empty with a writer left, and a writer only while it is
-- full with a reader left, pipewrite keeps it so, unless it answers -1 while a reader sleeps.
pub pipewrite-HasReason :
    (killed : Bool) (p : Pipe) (s : Sleepers) (bs : List ℕ)
    → IsValid p
    → HasReason p s
    → ((pipewrite killed p s bs).0 ≢ WriteResult.failed) ⊎ (s.on_nread ≡ 0)
    → let (_, p', s') = pipewrite killed p s bs in HasReason p' s'
unfolding pipewrite
pipewrite-HasReason killed p s bs v h ok =
    Left-HasReason killed p s bs _ _ _ h (write_loop-Left killed p s bs v)
      (pipewrite-Writes killed p s bs v) ok

-- The test of piperead's `while`, read as a statement.
is_waiting :
    (p : Pipe)
    → IsValid p
    → ((is_empty p && p.writeopen) ≡ true) ↔ ((count p ≡ 0) × (p.writeopen ≡ true))
is_waiting p v = (λ e. ground arith, λ e. ground arith)

after_loop_test-HasReason :
    (killed wait : Bool) (p : Pipe) (s : Sleepers) (n : ℕ)
    → HasReason p s
    → (wait ≡ true) ↔ ((count p ≡ 0) × (p.writeopen ≡ true))
    → let (_, p', s') = after_loop_test killed wait p s n in HasReason p' s'
unfolding after_loop_test
after_loop_test-HasReason true true p s n h iff = h
after_loop_test-HasReason false true p s n h iff = record {
  readers = inr (iff.0 refl);
  writers = h.writers;
}
after_loop_test-HasReason killed false p s n h iff = record {
  readers = elim h.readers [ inl e ↦ inl e | inr r ↦ cc (iff.1 r) ];
  writers = inl refl;
}

-- piperead keeps it too: a reader sleeps only while the pipe is empty with a writer left, and a writer
-- only while it is full with a reader left.
pub piperead-HasReason :
    (killed : Bool) (p : Pipe) (s : Sleepers) (n : ℕ)
    → IsValid p
    → HasReason p s
    → let (_, p', s') = piperead killed p s n in HasReason p' s'
unfolding piperead
piperead-HasReason killed p s n v h = after_loop_test-HasReason killed _ p s n h (is_waiting p v)

-- pipeclose keeps it.
pub pipeclose-HasReason :
    (p : Pipe) (s : Sleepers) (writable : Bool)
    → HasReason p s
    → let (p', s', _) = pipeclose p s writable in HasReason p' s'
unfolding pipeclose
pipeclose-HasReason p s true h = ground arith
pipeclose-HasReason p s false h = ground arith

told_failed :
    (p : Pipe) (bs : List ℕ) (r : WriteResult)
    → count p ≡ 0
    → pipesize < length bs
    → r ≡ answer (not p.readopen || true) (space p) bs
    → r ≢ WriteResult.failed
    → ⊥
told_failed p bs r c h e ne = elim (Bool-cases p.readopen) [
  | inl o ↦ ground arith
  | inr o ↦ ground arith
]

lost :
    (p : Pipe) (s : Sleepers) (bs : List ℕ) (r : WriteResult) (p' : Pipe) (s' : Sleepers)
    → contents p ≡ []
    → count p ≡ 0
    → pipesize < length bs
    → Writes true p bs r p'
    → Left s r p' s'
    → (r ≡ WriteResult.failed) × (s' ≡ s) × (contents p' ≡ take pipesize bs)
lost p s bs returned p' s' e c h w l = absurd (told_failed p bs returned c h w.told (λ q. cc q))
lost p s bs (asleep rest) p' s' e c h w l =
    absurd (told_failed p bs (asleep rest) c h w.told (λ q. cc q))
lost p s bs WriteResult.failed p' s' e c h w l = (refl, l, w.bytes ∙ rw (e, c))

-- A killed writer that fills an empty pipe with part of what it
-- has gives up with -1 and wakes nobody, so the threads that slept on the empty pipe sleep on
-- although it now holds bytes.
pub pipewrite_lost_wakeup :
    (p : Pipe) (s : Sleepers) (bs : List ℕ)
    → IsValid p
    → contents p ≡ []
    → pipesize < length bs
    → let (r, p', s') = pipewrite true p s bs in
      (r ≡ WriteResult.failed) × (s' ≡ s) × (contents p' ≡ take pipesize bs)
unfolding pipewrite
pipewrite_lost_wakeup p s bs v e h =
    let w = pipewrite-Writes true p s bs v in
    let l = write_loop-Left true p s bs v in
    let none_held : count p ≡ 0 =
      omega (arith, ap length e, length-window p.bytes p.nread (count p)) in
    lost p s bs _ _ _ e none_held h w l
