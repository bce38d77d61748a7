-- ===== src/Proc/Sleep/Locks.antt =====
-- Who holds the two locks at each point of sleep and of the other, and what the thread is like there.
use os.Prelude.{
  ℕ, ◌≡◌, refl, sym, ap, ◌∙◌, arith, Bool, true, false, ◌&&◌, List, Option, none, some, get_elem?,
  get_elem?-modify_self, some_inj, none≢some,
}
use mathlib.Core.Path.{subst}
use os.Proc.{
  sleeping, runnable, running, is_sleeping, is_runnable, Chan, null, Kthread, Proc, is_ready,
}
use os.Proc.Wakeup.{fall_asleep, after_sleep}
use os.Proc.Schedule.{dispatch}
use os.Proc.Sleep.{
  Who, the_sleeper, the_waker, SleepAt, holds_lk, holds_both, holds_table, marked, away, back,
  awake, returned, WakeAt, outside, in_table, woke, left, TwoLocks, is_free, when, can_run,
  sleep_from, has_woken,
}

-- Who holds which lock at which point.
abbrev pub s_lk : SleepAt → Bool
s_lk holds_lk = true
s_lk holds_both = true
s_lk returned = true
s_lk _ = false

abbrev pub s_table : SleepAt → Bool
s_table holds_both = true
s_table holds_table = true
s_table marked = true
s_table back = true
s_table _ = false

abbrev pub w_lk : WakeAt → Bool
w_lk outside = false
w_lk left = false
w_lk _ = true

abbrev pub w_table : WakeAt → Bool
w_table in_table = true
w_table woke = true
w_table _ = false

abbrev pub owner : Bool → Bool → Option Who
owner true b = some the_sleeper
owner false true = some the_waker
owner false false = none

-- What the thread is like at a point of sleep, before and after wakeup1.
abbrev pub Shape : Chan → SleepAt → Bool → Kthread → Type 0
Shape chan holds_lk b t = b ≡ false
Shape chan holds_both b t = b ≡ false
Shape chan holds_table b t = b ≡ false
Shape chan marked b t = (b ≡ false) × (t.state ≡ sleeping) × (t.chan ≡ chan)
Shape chan away true t = t.state ≡ runnable
Shape chan away false t = (t.state ≡ sleeping) × (t.chan ≡ chan)
Shape chan back b t = is_sleeping t.state ≡ false
Shape chan awake b t = is_sleeping t.state ≡ false
Shape chan returned b t = is_sleeping t.state ≡ false

pub record Sleeps (chan : Chan) (cur me : ℕ) (ps : List Proc) (s : SleepAt) (b : Bool)
    : Type 0 where
  pub p : Proc
  pub t : Kthread
  pub at : get_elem? ps cur ≡ some p
  pub ready : is_ready p ≡ true
  pub thread : get_elem? p.table me ≡ some t
  pub shape : Shape chan s b t

pub record Inv (chan : Chan) (cur me : ℕ) (w : TwoLocks) : Type 0 where
  pub lk : w.lk ≡ owner (s_lk w.sleep_at) (w_lk w.wake_at)
  pub table : w.table ≡ owner (s_table w.sleep_at) (w_table w.wake_at)
  pub lk_apart : s_lk w.sleep_at ≡ true → w_lk w.wake_at ≡ false
  pub table_apart : s_table w.sleep_at ≡ true → w_table w.wake_at ≡ false
  pub asleep : Sleeps chan cur me w.procs w.sleep_at (has_woken w.wake_at)

pub when-some : (b : Bool) (w w' : TwoLocks) → when b w ≡ some w' → (b ≡ true) × (w ≡ w')
when-some true w w' e = (refl, some_inj e)
when-some false w w' e = absurd (none≢some e)

pub free_owner :
    (o : Option Who) (x y : Bool) → o ≡ owner x y → is_free o ≡ true → (x ≡ false) × (y ≡ false)
free_owner o x y e f = go x y (ap is_free (sym e) ∙ f)
  where
    go : (x y : Bool) → is_free (owner x y) ≡ true → (x ≡ false) × (y ≡ false)
    go true y f = cc
    go false true f = cc
    go false false f = (refl, refl)

and_true : (a b : Bool) → (a && b) ≡ true → (a ≡ true) × (b ≡ true)
and_true a b e = ground arith

module _ (chan : Chan) (cur me : ℕ) where
  abbrev pub world : List Proc → Option Who → Option Who → SleepAt → WakeAt → TwoLocks
  world ps lk table s a = record { procs = ps; lk = lk; table = table; sleep_at = s; wake_at = a }

  runs_now : (b : Bool) (t : Kthread) → is_runnable t.state ≡ true → Shape chan away b t → b ≡ true
  runs_now true t r h = refl
  runs_now false t r (st, _) = cc (ap is_runnable (sym st) ∙ r)

  -- A step of sleep, by the point where it stands.
  pub Inv-sleep :
      (ps : List Proc) (lk table : Option Who) (s : SleepAt) (a : WakeAt) (w' : TwoLocks)
      → Inv chan cur me (world ps lk table s a)
      → sleep_from chan cur me false s (world ps lk table s a) ≡ some w'
      → Inv chan cur me w'
  unfolding sleep_from fall_asleep dispatch after_sleep
  Inv-sleep ps lk table holds_lk a w' i e =
      let (f, q) = when-some (is_free table) _ w' e in
      let (_, none_there) = free_owner table false (w_table a) i.table f in
      let x = i.asleep in
      subst (Inv chan cur me) q (record {
        lk = i.lk;
        table = refl;
        lk_apart = i.lk_apart;
        table_apart = λ _. none_there;
        asleep = record {
          p = x.p;
          t = x.t;
          at = x.at;
          ready = x.ready;
          thread = x.thread;
          shape = x.shape;
        };
      })
  Inv-sleep ps lk table holds_both a w' i e =
      let x = i.asleep in
      subst (Inv chan cur me) (some_inj e) (record {
        lk = ap (owner false) (sym (i.lk_apart refl));
        table = i.table;
        lk_apart = λ z. cc z;
        table_apart = i.table_apart;
        asleep = record {
          p = x.p;
          t = x.t;
          at = x.at;
          ready = x.ready;
          thread = x.thread;
          shape = x.shape;
        };
      })
  Inv-sleep ps lk table holds_table a w' i e =
      let x = i.asleep in
      let t1 : Kthread = record x.t { chan = chan; state = sleeping } in
      subst (Inv chan cur me) (some_inj e) (record {
        lk = i.lk;
        table = i.table;
        lk_apart = λ z. cc z;
        table_apart = i.table_apart;
        asleep = record {
          p = _;
          t = t1;
          at = get_elem?-modify_self ps cur _ x.p x.at;
          ready = x.ready;
          thread = get_elem?-modify_self x.p.table me _ x.t x.thread;
          shape = (x.shape, refl, refl);
        };
      })
  Inv-sleep ps lk table marked a w' i e =
      let x = i.asleep in
      let (b, st, ch) = x.shape in
      subst (Inv chan cur me) (some_inj e) (record {
        lk = i.lk;
        table = ap (owner false) (sym (i.table_apart refl));
        lk_apart = λ z. cc z;
        table_apart = λ z. cc z;
        asleep = record {
          p = x.p;
          t = x.t;
          at = x.at;
          ready = x.ready;
          thread = x.thread;
          shape = subst (λ y. Shape chan away y x.t) (sym b) (st, ch);
        };
      })
  Inv-sleep ps lk table away a w' i e =
      let x = i.asleep in
      let (g, q) = when-some (can_run cur me ps && is_free table) _ w' e in
      let (_, f) = and_true (can_run cur me ps) (is_free table) g in
      let (_, none_there) = free_owner table false (w_table a) i.table f in
      subst (Inv chan cur me) q (record {
        lk = i.lk;
        table = refl;
        lk_apart = λ z. cc z;
        table_apart = λ _. none_there;
        asleep = record {
          p = _;
          t = record x.t { state = running };
          at = get_elem?-modify_self ps cur _ x.p x.at;
          ready = x.ready;
          thread = get_elem?-modify_self x.p.table me _ x.t x.thread;
          shape = refl;
        };
      })
  Inv-sleep ps lk table back a w' i e =
      let x = i.asleep in
      subst (Inv chan cur me) (some_inj e) (record {
        lk = i.lk;
        table = ap (owner false) (sym (i.table_apart refl));
        lk_apart = λ z. cc z;
        table_apart = λ z. cc z;
        asleep = record {
          p = _;
          t = record x.t { chan = null };
          at = get_elem?-modify_self ps cur _ x.p x.at;
          ready = x.ready;
          thread = get_elem?-modify_self x.p.table me _ x.t x.thread;
          shape = x.shape;
        };
      })
  Inv-sleep ps lk table awake a w' i e =
      let x = i.asleep in
      let (f, q) = when-some (is_free lk) _ w' e in
      let (_, none_there) = free_owner lk false (w_lk a) i.lk f in
      subst (Inv chan cur me) q (record {
        lk = refl;
        table = i.table;
        lk_apart = λ _. none_there;
        table_apart = λ z. cc z;
        asleep = record {
          p = x.p;
          t = x.t;
          at = x.at;
          ready = x.ready;
          thread = x.thread;
          shape = x.shape;
        };
      })
  Inv-sleep ps lk table returned a w' i e = absurd (none≢some e)
