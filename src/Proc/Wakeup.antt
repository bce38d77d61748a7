-- ===== src/Proc/Wakeup.antt =====
-- wakeup1, wakeup and yield of proc.c, and what sleep does to the thread.
use mathlib.Core.Option
use os.Prelude.{
  ℕ, zero, suc, ◌≡◌, inl, inr, refl, ap, ◌∙◌, true, false, ◌&&◌, List, [], ◌∷◌, map, Option, some,
  if◌then◌else◌, modify, get_elem?, ◌>>=◌, arith, Bool-cases, >>=-eq-some,
}
use os.Proc.{
  sleeping, runnable, is_sleeping, Chan, null, same_chan, Kthread, Proc, is_ready, threads_of,
  HasThreads, thread_at,
}

-- The body of the inner loop of wakeup1.
unfoldable pub wake : Chan → Kthread → Kthread
wake chan t =
    if is_sleeping t.state && same_chan t.chan chan then record t { state = runnable } else t

-- The body of the outer loop.
unfoldable pub wake_proc : Chan → Proc → Option Proc
wake_proc chan p = elim (is_ready p) [
  | false ↦ some p
  | true ↦ threads_of p >>= λ ts. some (record p { table = map (wake chan) ts })
]

-- wakeup1 and wakeup. `none` would be a read through a null p->threads.
unfoldable pub wakeup1 : Chan → List Proc → Option (List Proc)
wakeup1 chan [] = some []
wakeup1 chan (p ∷ ps) = do p' ← wake_proc chan p; ps' ← wakeup1 chan ps; some (p' ∷ ps')

-- What sleep does to the thread before it calls sched.
unfoldable pub fall_asleep : Chan → ℕ → ℕ → List Proc → List Proc
fall_asleep chan cur me ps =
    modify ps cur (λ p. record p {
      table = modify p.table me (λ t. record t { chan = chan; state = sleeping });
    })

-- What it does to the thread after sched has returned.
unfoldable pub after_sleep : ℕ → ℕ → List Proc → List Proc
after_sleep cur me ps =
    modify ps cur (λ p. record p { table = modify p.table me (λ t. record t { chan = null }) })

-- yield, up to the call of sched.
unfoldable pub yield : ℕ → ℕ → List Proc → List Proc
yield cur me ps =
    modify ps cur (λ p. record p { table = modify p.table me (λ t. record t { state = runnable }) })

-- What wakeup1 makes of one process.
abbrev pub woken : Chan → Proc → Proc
woken chan p = if is_ready p then record p { table = map (wake chan) p.table } else p

wake_proc_lem : (chan : Chan) (p p' : Proc) → wake_proc chan p ≡ some p' → p' ≡ woken chan p
unfolding wake_proc
wake_proc_lem chan p p' e = ground arith

wake_proc_total :
    (chan : Chan) (p : Proc)
    → (is_ready p ≡ true → p.threads ≡ true)
    → wake_proc chan p ≡ some (woken chan p)
unfolding wake_proc
wake_proc_total chan p h = ground arith

wakeup1-cons :
    (chan : Chan) (q : Proc) (ps ps' : List Proc)
    → wakeup1 chan (q ∷ ps) ≡ some ps'
    → (rest : List Proc) × (wakeup1 chan ps ≡ some rest) × (ps' ≡ woken chan q ∷ rest)
unfolding wakeup1
wakeup1-cons chan q ps ps' e =
    let (q', eq, e') = >>=-eq-some (wake_proc chan q) _ e in
    let (rest, er, e'') = >>=-eq-some (wakeup1 chan ps) _ e' in
    (rest, er, cc (wake_proc_lem chan q q' eq, e''))

pub wakeup1_at :
    (chan : Chan) (ps ps' : List Proc) (i : ℕ) (p : Proc)
    → wakeup1 chan ps ≡ some ps'
    → get_elem? ps i ≡ some p
    → get_elem? ps' i ≡ some (woken chan p)
wakeup1_at chan [] ps' i p e h = cc
wakeup1_at chan (q ∷ ps) ps' zero p e h =
    let (rest, er, e') = wakeup1-cons chan q ps ps' e in
    rw e' (ap (λ o. Option.map (woken chan) o) h)
wakeup1_at chan (q ∷ ps) ps' (suc i) p e h =
    let (rest, er, e') = wakeup1-cons chan q ps ps' e in rw e' (wakeup1_at chan ps rest i p er h)

get_elem?-map-wake :
    (chan : Chan) (ts : List Kthread) (j : ℕ) (t : Kthread)
    → get_elem? ts j ≡ some t
    → get_elem? (map (wake chan) ts) j ≡ some (wake chan t)
get_elem?-map-wake chan [] j t h = cc
get_elem?-map-wake chan (u ∷ ts) zero t h = cc
get_elem?-map-wake chan (u ∷ ts) (suc j) t h = get_elem?-map-wake chan ts j t h

-- wakeup follows no null pointer.
pub wakeup1_total :
    (chan : Chan) (ps : List Proc)
    → HasThreads ps
    → (ps' : List Proc) × (wakeup1 chan ps ≡ some ps')
unfolding wakeup1
wakeup1_total chan [] h = ([], refl)
wakeup1_total chan (p ∷ ps) h =
    let (ps', e) = wakeup1_total chan ps h.1 in
    (woken chan p ∷ ps', rw (wake_proc_total chan p h.0, e))

pub woken_at :
    (chan : Chan) (p : Proc) (j : ℕ) (t : Kthread)
    → get_elem? p.table j ≡ some t
    → get_elem? (woken chan p).table j
      ≡ some (
          if is_ready p && (is_sleeping t.state && same_chan t.chan chan)
          then record t { state = runnable }
          else t)
unfolding wake
woken_at chan p j t k = elim (Bool-cases (is_ready p)) [
  | inl r ↦ rw r (get_elem?-map-wake chan p.table j t k)
  | inr r ↦ rw r k
]

-- What wakeup does to a thread: it makes it RUNNABLE if its process is ready and it sleeps on the
-- channel, and else leaves it as it is.
pub wakeup1_thread :
    (chan : Chan) (ps ps' : List Proc) (i j : ℕ) (p : Proc) (t : Kthread)
    → wakeup1 chan ps ≡ some ps'
    → get_elem? ps i ≡ some p
    → get_elem? p.table j ≡ some t
    → thread_at ps' i j
      ≡ some (
          if is_ready p && (is_sleeping t.state && same_chan t.chan chan)
          then record t { state = runnable }
          else t)
wakeup1_thread chan ps ps' i j p t e h k =
    rw (wakeup1_at chan ps ps' i p e h) (woken_at chan p j t k)

-- wakeup leaves a process that is not ready as it is.
pub wakeup1_not_ready :
    (chan : Chan) (ps ps' : List Proc) (i : ℕ) (p : Proc)
    → wakeup1 chan ps ≡ some ps'
    → get_elem? ps i ≡ some p
    → is_ready p ≡ false
    → get_elem? ps' i ≡ some p
wakeup1_not_ready chan ps ps' i p e h r = wakeup1_at chan ps ps' i p e h ∙ rw r refl

pub wakeup1_present :
    (chan : Chan) (ps ps' : List Proc) (i : ℕ) (p : Proc)
    → wakeup1 chan ps ≡ some ps'
    → get_elem? ps i ≡ some p
    → (p' : Proc) × (get_elem? ps' i ≡ some p')
wakeup1_present chan ps ps' i p e h = (woken chan p, wakeup1_at chan ps ps' i p e h)
