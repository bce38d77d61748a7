-- ===== src/Log/Boot.antt =====
-- Boots after a crash, also when the power fails during recovery and it is run again.
use os.Prelude.{
  ℕ, ◌-◌, ◌<◌, ◌≡◌, refl, ◌⊎◌, inl, inr, List, [], ◌∷◌, arith, length, length-replicate,
}
use os.Log.{
  Machine, Log, Block, bread, recover_from_log, initlog, restart, restarts, sb_size, sb_nlog,
  zeroed, logsize,
}
use os.Log.Copies.{Agrees}
use os.Log.Install.{Placed, Settled, Pending, Untouched}
use os.Log.Recover.{recover-Pending, recover-Settled}

-- The super block says where the log is, and is no target.
pub record Located (log : Log) (f : ℕ → Block) : Type 0 where
  pub behind : 1 < log.start
  pub untouched : Untouched log 1
  pub located : sb_size (f 1) - sb_nlog (f 1) ≡ log.start

-- What a crash may leave: the transaction lost, done, or committed and not yet home.
abbrev pub Crashed : Log → (ℕ → Block) → (ℕ → Block) → (ℕ → Block) → Type 0
Crashed log old new d = Settled log.start old d ⊎ (Pending log new d ⊎ Settled log.start new d)

Agrees-restart : (k : ℕ) (m : Machine) (a : ℕ) → Agrees (restart k m) a
unfolding restart bread
Agrees-restart k m a = refl

disk-restart : (k : ℕ) (m : Machine) → (restart k m).disk ≡ m.disk
unfolding restart
disk-restart k m = refl

power-restart : (k : ℕ) (m : Machine) → (restart k m).power ≡ k
unfolding restart
power-restart k m = refl

boot_log : ℕ → Machine → Log
boot_log k m = record zeroed {
  start = sb_size (bread (restart k m) 1) - sb_nlog (bread (restart k m) 1);
  size = sb_nlog (bread (restart k m) 1);
}

initlog-restart :
    (k : ℕ) (m : Machine) → initlog (restart k m) ≡ recover_from_log (boot_log k m) (restart k m)
unfolding initlog boot_log
initlog-restart k m = refl

boot_log-start :
    (log : Log) (f : ℕ → Block) (k : ℕ) (m : Machine)
    → Located log f
    → m.disk 1 ≡ f 1
    → ((boot_log k m).start ≡ log.start) × (length (boot_log k m).sector ≡ logsize)
unfolding boot_log
boot_log-start log f k m l e =
    (rw (Agrees-restart k m 1, disk-restart k m, e) l.located, length-replicate {A = ℕ} logsize 0)

module _ (log : Log) (p : Placed log) (old new : ℕ → Block) (lo : Located log old)
    (ln : Located log new) where
  -- One boot, good for `k` writes.
  boot_Crashed :
      (k : ℕ) (m : Machine)
      → Crashed log old new m.disk
      → Crashed log old new (initlog (restart k m)).1.disk
  boot_Crashed k m (inl q) = rw (initlog-restart k m) (
      inl (
        recover-Settled log.start (boot_log k m) old (restart k m)
          (boot_log-start log old k m lo (q.home 1 lo.behind)).0 (rw (disk-restart k m) q)
          (Agrees-restart k m)))
  boot_Crashed k m (inr (inr q)) = rw (initlog-restart k m) (
      inr (
        inr (
          recover-Settled log.start (boot_log k m) new (restart k m)
            (boot_log-start log new k m ln (q.home 1 ln.behind)).0 (rw (disk-restart k m) q)
            (Agrees-restart k m))))
  boot_Crashed k m (inr (inl q)) =
      let b = boot_log-start log new k m ln (q.home 1 ln.behind ln.untouched) in
      rw (initlog-restart k m) (
        inr
          (recover-Pending log (boot_log k m) new (restart k m) b.0 b.1 p (rw (disk-restart k m) q)
            (Agrees-restart k m)).0)

  -- A boot that has power for the whole of recovery settles the matter.
  boot_Settled :
      (k : ℕ) (m : Machine)
      → log.n < k
      → Crashed log old new m.disk
      → Settled log.start old (initlog (restart k m)).1.disk
        ⊎ Settled log.start new (initlog (restart k m)).1.disk
  boot_Settled k m h (inl q) = rw (initlog-restart k m) (
      inl (
        recover-Settled log.start (boot_log k m) old (restart k m)
          (boot_log-start log old k m lo (q.home 1 lo.behind)).0 (rw (disk-restart k m) q)
          (Agrees-restart k m)))
  boot_Settled k m h (inr (inr q)) = rw (initlog-restart k m) (
      inr (
        recover-Settled log.start (boot_log k m) new (restart k m)
          (boot_log-start log new k m ln (q.home 1 ln.behind)).0 (rw (disk-restart k m) q)
          (Agrees-restart k m)))
  boot_Settled k m h (inr (inl q)) =
      let b = boot_log-start log new k m ln (q.home 1 ln.behind ln.untouched) in
      rw (initlog-restart k m) (
        inr (
          (recover-Pending log (boot_log k m) new (restart k m) b.0 b.1 p (rw (disk-restart k m) q)
              (Agrees-restart k m)).1
            (omega (arith, power-restart k m))))

  -- Recovery may itself be cut short, any number of times, before it runs to its end.
  pub restarts-Crashed :
      (ks : List ℕ) (m : Machine)
      → Crashed log old new m.disk
      → Crashed log old new (restarts ks m).disk
  unfolding restarts
  restarts-Crashed [] m q = q
  restarts-Crashed (k ∷ ks) m q = restarts-Crashed ks (initlog (restart k m)).1 (boot_Crashed k m q)

  pub restarts-Settled :
      (ks : List ℕ) (k : ℕ) (m : Machine)
      → log.n < k
      → Crashed log old new m.disk
      → Settled log.start old (initlog (restart k (restarts ks m))).1.disk
        ⊎ Settled log.start new (initlog (restart k (restarts ks m))).1.disk
  restarts-Settled ks k m h q = boot_Settled k (restarts ks m) h (restarts-Crashed ks m q)
