-- ===== src/Pipe/Write.antt =====
-- pipewrite: how much of the buffer goes into the pipe, and what the caller is told.
use mathlib.Core.List.{append-nil, append_assoc}
use os.Prelude.{
  ℕ, suc, ◌-◌, ◌<◌, ◌≡◌, refl, Bool, true, false, not, ◌||◌, List, [], ◌∷◌, ◌++◌, length, take,
  take-nil, sym, ◌∙◌, inl, inr, Bool-cases, drop, arith, leb, if◌then◌else◌, ◌==◌,
}
use os.Pipe.{
  Pipe, Sleepers, WriteResult, returned, failed, asleep, pipesize, put, is_full, when_full,
  write_loop, pipewrite,
}
use os.Pipe.Contents.{
  IsValid, count, contents, put-IsValid, count-put, contents-put, put-readopen, put-writeopen,
  put-nread,
}

abbrev pub space : Pipe → ℕ
space p = pipesize - count p

-- The full test agrees with the count, also where the counters have wrapped.
pub is_full-count : (p : Pipe) → IsValid p → is_full p ≡ (count p == pipesize)
is_full-count p v = ground arith

-- The answer to a caller whose `n` first bytes fit, where `refuse` is the test of the early return.
abbrev pub answer : Bool → ℕ → List ℕ → WriteResult
answer refuse n bs =
    if leb (length bs) n then returned else if refuse then failed else asleep (drop n bs)

answer-zero :
    (g : Bool) (b : ℕ) (bs : List ℕ) → answer g 0 (b ∷ bs) ≡ (if g then failed else asleep (b ∷ bs))
answer-zero g b bs = ground arith

answer-suc : (g : Bool) (n b : ℕ) (bs : List ℕ) → answer g (suc n) (b ∷ bs) ≡ answer g n bs
answer-suc g n b bs = ground arith

-- What pipewrite does: it takes the bytes that fit, in order.
pub record Writes (killed : Bool) (p : Pipe) (bs : List ℕ) (r : WriteResult) (p' : Pipe)
    : Type 0 where
  pub valid : IsValid p'
  pub bytes : contents p' ≡ contents p ++ take (space p) bs
  pub readopen : p'.readopen ≡ p.readopen
  pub writeopen : p'.writeopen ≡ p.writeopen
  pub nread : p'.nread ≡ p.nread
  pub told : r ≡ answer (not p.readopen || killed) (space p) bs

pub is_full-space : (p : Pipe) → IsValid p → is_full p ≡ true → space p ≡ 0
is_full-space p v e = ground arith

pub is_full-room : (p : Pipe) → IsValid p → is_full p ≡ false → count p < pipesize
is_full-room p v e = ground arith

-- The bytes and the answer where nothing fits.
Writes-full :
    (killed : Bool) (p : Pipe) (b : ℕ) (bs : List ℕ)
    → IsValid p
    → space p ≡ 0
    → Writes killed p (b ∷ bs) (if not p.readopen || killed then failed else asleep (b ∷ bs)) p
Writes-full killed p b bs v e = record {
  valid = v;
  bytes = rw e (sym (append-nil (contents p)));
  readopen = refl;
  writeopen = refl;
  nread = refl;
  told = rw e (sym (answer-zero (not p.readopen || killed) b bs));
}

-- One byte that fits, and then the rest.
Writes-put :
    (killed : Bool) (p p' : Pipe) (b : ℕ) (bs : List ℕ) (r : WriteResult)
    → IsValid p
    → count p < pipesize
    → Writes killed (put p b) bs r p'
    → Writes killed p (b ∷ bs) r p'
Writes-put killed p p' b bs r v h w =
    let room : space p ≡ suc (space (put p b)) = omega (arith, count-put p b v h) in
    let open' : (put p b).readopen ≡ p.readopen = put-readopen p b in
    record {
      valid = w.valid;
      bytes = rw room (
          w.bytes
          ∙ (rw (contents-put p b v h)
              (append_assoc (contents p) (b ∷ []) (take (space (put p b)) bs))));
      readopen = w.readopen ∙ open';
      writeopen = w.writeopen ∙ put-writeopen p b;
      nread = w.nread ∙ put-nread p b;
      told =
          w.told
          ∙ rw (room, open') (sym (answer-suc (not p.readopen || killed) (space (put p b)) b bs));
    }

when_full-Writes :
    (killed g : Bool) (p : Pipe) (s : Sleepers) (b : ℕ) (bs : List ℕ)
    → IsValid p
    → space p ≡ 0
    → g ≡ (not p.readopen || killed)
    → let (r, p', _) = when_full g p s (b ∷ bs) in Writes killed p (b ∷ bs) r p'
unfolding when_full
when_full-Writes killed true p s b bs v z e = rw (← e) at (Writes-full killed p b bs v z)
when_full-Writes killed false p s b bs v z e = rw (← e) at (Writes-full killed p b bs v z)

pub write_loop-Writes :
    (killed : Bool) (p : Pipe) (s : Sleepers) (bs : List ℕ)
    → IsValid p
    → let (r, p', _) = write_loop killed p s bs in Writes killed p bs r p'
unfolding write_loop
write_loop-Writes killed p s [] v = record {
  valid = v;
  bytes = rw (take-nil (space p)) (sym (append-nil (contents p)));
  readopen = refl;
  writeopen = refl;
  nread = refl;
  told = ground arith;
}
write_loop-Writes killed p s (b ∷ bs) v = elim (Bool-cases (is_full p)) [
  | inl e ↦ rw e (when_full-Writes killed _ p s b bs v (is_full-space p v e) refl)
  | inr e ↦ rw e (
      Writes-put killed p _ b bs _ v (is_full-room p v e)
        (write_loop-Writes killed (put p b) s bs (put-IsValid p b v (is_full-room p v e))))
]

-- pipewrite puts the bytes that fit at the end of the pipe, in order, and answers n if that was all
-- of them; with bytes left over it answers -1 if the read end is closed or the caller was killed,
-- and otherwise it sleeps, with exactly the bytes that did not fit.
pub pipewrite-Writes :
    (killed : Bool) (p : Pipe) (s : Sleepers) (bs : List ℕ)
    → IsValid p
    → let (r, p', _) = pipewrite killed p s bs in Writes killed p bs r p'
unfolding pipewrite
pipewrite-Writes killed p s bs v = write_loop-Writes killed p s bs v
