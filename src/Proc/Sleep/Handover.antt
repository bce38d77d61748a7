-- ===== src/Proc/Sleep/Handover.antt =====
-- No wakeup is lost between the release of lk and the switch away from the thread.
use os.Prelude.{
  ℕ, ◌≡◌, refl, sym, ap, ◌∙◌, Bool, true, false, ◌&&◌, List, Option, some, if◌then◌else◌, get_elem?,
  some_inj, none≢some, >>=-eq-some,
}
use mathlib.Core.Path.{subst}
use os.Proc.{
  runnable, is_sleeping, Chan, same_chan, Kthread, Proc, is_ready, thread_at, same_chan_refl,
}
use os.Proc.Wakeup.{wakeup1, woken, wakeup1_at, woken_at}
use os.Proc.Sleep.Locks.{
  s_lk, s_table, owner, Shape, Sleeps, Inv, when-some, free_owner, world, Inv-sleep,
}
use os.Proc.Sleep.{
  Who, SleepAt, holds_lk, holds_both, holds_table, marked, away, back, awake, returned, WakeAt,
  outside, in_lk, in_table, woke, let_go, left, TwoLocks, is_free, sleep, wakeup_from, Reach, here,
  sleeps, wakes, has_woken, start,
}

module _ (chan : Chan) (cur me : ℕ) where
  -- What wakeup1 makes of the thread, where its process is ready.
  abbrev after_wakeup1 : Kthread → Kthread
  after_wakeup1 t =
      if is_sleeping t.state && same_chan t.chan chan then record t { state = runnable } else t

  Shape-wakeup1 :
      (s : SleepAt) (t : Kthread)
      → (s_lk s ≡ true → true ≡ false)
      → (s_table s ≡ true → true ≡ false)
      → Shape chan s false t
      → Shape chan s true (after_wakeup1 t)
  Shape-wakeup1 holds_lk t l b h = l refl
  Shape-wakeup1 holds_both t l b h = l refl
  Shape-wakeup1 holds_table t l b h = b refl
  Shape-wakeup1 marked t l b h = cc (b refl)
  Shape-wakeup1 away t l b (st, ch) = rw (st, ch, same_chan_refl chan) refl
  Shape-wakeup1 back t l b h = rw (h) h
  Shape-wakeup1 awake t l b h = rw (h) h
  Shape-wakeup1 returned t l b h = rw (h) h

  woken_ready : (p : Proc) → is_ready p ≡ true → is_ready (woken chan p) ≡ true
  woken_ready p r = rw r r

  Sleeps-wakeup1 :
      (ps ps' : List Proc) (s : SleepAt)
      → wakeup1 chan ps ≡ some ps'
      → (s_lk s ≡ true → true ≡ false)
      → (s_table s ≡ true → true ≡ false)
      → Sleeps chan cur me ps s false
      → Sleeps chan cur me ps' s true
  Sleeps-wakeup1 ps ps' s e l b x = record {
    p = woken chan x.p;
    t = after_wakeup1 x.t;
    at = wakeup1_at chan ps ps' cur x.p e x.at;
    ready = woken_ready x.p x.ready;
    thread = woken_at chan x.p me x.t x.thread ∙ rw x.ready refl;
    shape = Shape-wakeup1 s x.t l b x.shape;
  }

  apart : (b : Bool) → (b ≡ true → true ≡ false) → b ≡ false
  apart true h = h refl
  apart false h = refl

  -- A step of the other.
  Inv-wakeup :
      (ps : List Proc) (lk table : Option Who) (s : SleepAt) (a : WakeAt) (w' : TwoLocks)
      → Inv chan cur me (world chan cur me ps lk table s a)
      → wakeup_from chan a (world chan cur me ps lk table s a) ≡ some w'
      → Inv chan cur me w'
  unfolding wakeup_from
  Inv-wakeup ps lk table s outside w' i e =
      let (f, q) = when-some (is_free lk) _ w' e in
      let (mine, _) = free_owner lk (s_lk s) false i.lk f in
      subst (Inv chan cur me) q (record {
        lk = ap (λ b. owner b true) (sym mine);
        table = i.table;
        lk_apart = λ z. cc (z, mine);
        table_apart = i.table_apart;
        asleep = i.asleep;
      })
  Inv-wakeup ps lk table s in_lk w' i e =
      let (f, q) = when-some (is_free table) _ w' e in
      let (mine, _) = free_owner table (s_table s) false i.table f in
      subst (Inv chan cur me) q (record {
        lk = i.lk;
        table = ap (λ b. owner b true) (sym mine);
        lk_apart = i.lk_apart;
        table_apart = λ z. cc (z, mine);
        asleep = i.asleep;
      })
  Inv-wakeup ps lk table s in_table w' i e =
      let (ps', ew, q) = >>=-eq-some (wakeup1 chan ps) _ e in
      subst (Inv chan cur me) (some_inj q) (record {
        lk = i.lk;
        table = i.table;
        lk_apart = i.lk_apart;
        table_apart = i.table_apart;
        asleep = Sleeps-wakeup1 ps ps' s ew i.lk_apart i.table_apart i.asleep;
      })
  Inv-wakeup ps lk table s woke w' i e =
      let mine : s_table s ≡ false = apart (s_table s) i.table_apart in
      subst (Inv chan cur me) (some_inj e) (record {
        lk = i.lk;
        table = ap (λ b. owner b false) (sym mine);
        lk_apart = i.lk_apart;
        table_apart = λ z. refl;
        asleep = i.asleep;
      })
  Inv-wakeup ps lk table s let_go w' i e =
      let mine : s_lk s ≡ false = apart (s_lk s) i.lk_apart in
      subst (Inv chan cur me) (some_inj e) (record {
        lk = ap (λ b. owner b false) (sym mine);
        table = i.table;
        lk_apart = λ z. refl;
        table_apart = i.table_apart;
        asleep = i.asleep;
      })
  Inv-wakeup ps lk table s left w' i e = absurd (none≢some e)

  Reach-Inv : {w0 w : TwoLocks} → Inv chan cur me w0 → Reach chan cur me w0 w → Inv chan cur me w
  unfolding sleep
  Reach-Inv i here = i
  Reach-Inv i (sleeps {w} {w'} r e) =
      Inv-sleep chan cur me w.procs w.lk w.table w.sleep_at w.wake_at w' (Reach-Inv i r) e
  Reach-Inv i (wakes {w} {w'} r e) =
      Inv-wakeup w.procs w.lk w.table w.sleep_at w.wake_at w' (Reach-Inv i r) e

  Shape-awake :
      (s : SleepAt) (t : Kthread)
      → Shape chan s true t
      → (is_sleeping t.state ≡ false) × (s ≡ away → t.state ≡ runnable)
  Shape-awake holds_lk t h = cc h
  Shape-awake holds_both t h = cc h
  Shape-awake holds_table t h = cc h
  Shape-awake marked t (h, _, _) = cc h
  Shape-awake away t h = (rw h refl, λ _. h)
  Shape-awake back t h = (h, λ e. cc e)
  Shape-awake awake t h = (h, λ e. cc e)
  Shape-awake returned t h = (h, λ e. cc e)

  -- A thread of a ready process calls sleep with a lock lk that it holds and that is not
  -- ptable.lock, and another takes lk and calls wakeup on the same channel. In whatever order the
  -- steps of the two fall, once wakeup1 is done the thread is not SLEEPING, and it is RUNNABLE if it
  -- has been switched away from: no wakeup is lost.
  pub no_lost_wakeup :
      (ps : List Proc) (p : Proc) (t : Kthread) (w : TwoLocks)
      → get_elem? ps cur ≡ some p
      → is_ready p ≡ true
      → get_elem? p.table me ≡ some t
      → Reach chan cur me (start ps) w
      → has_woken w.wake_at ≡ true
      → (t' : Kthread) × (thread_at w.procs cur me ≡ some t')
        × (is_sleeping t'.state ≡ false)
        × (w.sleep_at ≡ away → t'.state ≡ runnable)
  no_lost_wakeup ps p t w at ready thread r h =
      let first : Inv chan cur me (start ps) = record {
        lk = refl;
        table = refl;
        lk_apart = λ _. refl;
        table_apart = λ z. cc;
        asleep = record { p = p; t = t; at = at; ready = ready; thread = thread; shape = refl };
      } in
      let x = (Reach-Inv first r).asleep in
      let (s, q) =
        Shape-awake w.sleep_at x.t (subst (λ b. Shape chan w.sleep_at b x.t) h x.shape) in
      (x.t, rw x.at x.thread, s, q)
