-- ===== src/Log/Commit.antt =====
-- commit, cut short by a power failure at any write.
use os.Prelude.{
  ℕ, ◌+◌, ◌-◌, ◌≤◌, ◌<◌, ◌≡◌, refl, sym, ap, ◌∙◌, ◌⊎◌, inl, inr, List, none, arith, get_or, length,
  lt→ltb,
}
use native.Mathlib.Decide.{dec_lt}
use os.Log.{
  Machine, Log, Block, bread, write_log, install_trans, write_head, commit, initlog, restart,
  restarts, logsize,
}
use os.Log.Copies.{copies_frame, copies_all, copies_off, copies-Agrees, power-copies, Agrees}
use os.Log.Head.{length-encode_head, encode_head-n, encode_head-sector}
use os.Log.Install.{Placed, Settled, Pending, Untouched, target, words}
use os.Log.WriteHead.{write_head_frame, write_head_off, write_head-Agrees, disk-write_head}
use os.Log.Finish.{finish, LogAgrees, finish_cases}
use os.Log.Boot.{Located, restarts-Settled}

-- A transaction ready for commit: no other is committed on the disk, and the cache pins the
-- targets and nothing else.
pub record IsReady (log : Log) (m : Machine) : Type 0 where
  pub placed : Placed log
  pub array : length log.sector ≡ logsize
  pub clean : get_or (m.disk log.start) 0 0 ≡ 0
  pub len : length (m.disk log.start) ≡ words
  pub pinned : (a : ℕ) → Untouched log a → m.dirty a ≡ none

commit_empty : (log : Log) (m : Machine) → log.n ≡ 0 → (commit log m).1 ≡ m
unfolding commit
commit_empty log m e = rw e

off : (log : Log) (m : Machine) → m.power ≡ 0 → finish log m ≡ m
unfolding install_trans
off log m e =
    let same = copies_off (λ t. log.start + t + 1) (λ t. target log t) log.n 0 m e in
    rw same (write_head_off (record log { n = 0 }) m e)

module _ (log : Log) (m : Machine) (r : IsReady log m) where
  Agrees-Untouched : (a : ℕ) → Untouched log a → Agrees m a
  unfolding bread
  Agrees-Untouched a u = rw (r.pinned a u, bread)

  Untouched-log : (a : ℕ) → log.start ≤ a → Untouched log a
  Untouched-log a h t k e = absurd (omega (arith, r.placed.before t k))

  write_log_frame : (a : ℕ) → a ≤ log.start → (write_log log m).disk a ≡ m.disk a
  unfolding write_log
  write_log_frame a h =
      (copies_frame (λ t. target log t) (λ t. log.start + t + 1) log.n 0 m a
        (λ t _ _. omega arith)).0

  write_log_all :
      log.n ≤ m.power
      → (t : ℕ) → t < log.n
      → (write_log log m).disk (log.start + t + 1) ≡ bread m (target log t)
  unfolding write_log
  write_log_all h t k =
      copies_all (λ t. target log t) (λ t. log.start + t + 1) log.n 0 m h
        (λ s u _ l _ _ e. absurd (omega (arith, r.placed.before s (omega arith))))
        (λ s u _ l q. omega arith) t (omega arith) (omega arith)

  power-write_log : (write_log log m).power ≡ m.power - log.n
  unfolding write_log
  power-write_log = power-copies (λ t. target log t) (λ t. log.start + t + 1) log.n 0 m

  write_log_Agrees : LogAgrees log (write_log log m)
  unfolding write_log
  write_log_Agrees a h =
      copies-Agrees (λ t. target log t) (λ t. log.start + t + 1) log.n 0 m a
        (Agrees-Untouched a (Untouched-log a h))

  -- Cut before the header is written, a commit has changed no sector but those of the log.
  lost : Settled log.start m.disk (write_log log m).disk
  lost = record {
    clean = rw (write_log_frame log.start (omega arith)) r.clean;
    len = rw (write_log_frame log.start (omega arith)) r.len;
    home = λ a h. write_log_frame a (omega arith);
  }

  -- The header's write commits it.
  committed : log.n < m.power → Pending log (bread m) (write_head log (write_log log m)).disk
  committed h =
      let m1 = write_log log m in
      let on = disk-write_head log m1 (omega (arith, power-write_log)) in
      let len1 : length (bread m1 log.start) ≡ words =
        ap length (write_log_Agrees log.start (omega arith)) ∙ lost.len in
      record {
        head_n = rw on (encode_head-n log.n log.sector (bread m1 log.start) (omega (arith, len1)));
        head_sector = λ t k. rw on (
            encode_head-sector log.n log.sector (bread m1 log.start) t
              (omega (arith, len1, r.placed.fits)) k);
        len = rw on (length-encode_head log.n log.sector (bread m1 log.start) ∙ len1);
        blocks = λ t k.
            write_head_frame log m1 (log.start + t + 1) (omega arith)
            ∙ write_log_all (omega arith) t k;
        home = λ a k u.
            write_head_frame log m1 a (omega arith)
            ∙ write_log_frame a (omega arith)
            ∙ sym (Agrees-Untouched a u);
      }

  commit_early : m.power ≤ log.n → Settled log.start m.disk (commit log m).1.disk
  unfolding commit
  commit_early h = elim (dec_lt 0 log.n) [
    | yes p ↦
        rw
          (
            lt→ltb 0 log.n p,
            write_head_off log (write_log log m) (omega (arith, power-write_log)),
            off log (write_log log m) (omega (arith, power-write_log)),
          )
          lost
    | no q ↦
        rw (commit_empty log m (omega arith))
          (record { clean = r.clean; len = r.len; home = λ a k. refl })
  ]

  commit_late :
      log.n < m.power
      → Pending log (bread m) (commit log m).1.disk
        ⊎ Settled log.start (bread m) (commit log m).1.disk
  unfolding commit
  commit_late h = elim (dec_lt 0 log.n) [
    | yes p ↦ rw (lt→ltb 0 log.n p) (
        finish_cases log r.placed (bread m) (write_head log (write_log log m))
          (λ a k. write_head-Agrees log (write_log log m) a (write_log_Agrees a k)) (committed h))
    | no q ↦ rw (commit_empty log m (omega arith)) (
        inr (record {
          clean = r.clean;
          len = r.len;
          home = λ a k. sym (Agrees-Untouched a (λ t l. absurd (omega arith)));
        }))
  ]

same {ℓ} : {A : Type ℓ} → A ⊎ A → A
same (inl a) = a
same (inr a) = a

Located-bread :
    (log : Log) (m : Machine) → IsReady log m → Located log m.disk → Located log (bread m)
Located-bread log m r l = record {
  behind = l.behind;
  untouched = l.untouched;
  located = rw (Agrees-Untouched log m r 1 l.untouched) l.located;
}

-- What the sectors before the log hold after restarts that crash after so many writes each, and a
-- last one with power for the whole of recovery.
abbrev pub recovered : List ℕ → ℕ → Machine → ℕ → Block
recovered ks k m = (initlog (restart k (restarts ks m))).1.disk

-- A transaction is atomic and durable. However many of commit's writes are carried out before the
-- power fails, and however often the power fails again during recovery: if the failure came before
-- the write of the header, the recovered disk has every sector before the log as it was before
-- commit, and if it came after, it has every one as the cache had it. Either way no transaction is
-- left in the log.
pub commit_atomic :
    (log : Log) (m : Machine) (ks : List ℕ) (k : ℕ)
    → IsReady log m
    → Located log m.disk
    → log.n < k
    → let after = (commit log m).1 in
      (m.power ≤ log.n → Settled log.start m.disk (recovered ks k after))
      × (log.n < m.power → Settled log.start (bread m) (recovered ks k after))
commit_atomic log m ks k r l h =
    let after = (commit log m).1 in
    let l' = Located-bread log m r l in
    (
      λ e. same (
          restarts-Settled log r.placed m.disk m.disk l l ks k after h
            (inl (commit_early log m r e))),
      λ e. same (
          restarts-Settled log r.placed (bread m) (bread m) l' l' ks k after h
            (inr (commit_late log m r e))),
    )
