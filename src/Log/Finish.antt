-- ===== src/Log/Finish.antt =====
-- The second half of commit, and the whole of recovery: install, then clear the header.
use os.Prelude.{ℕ, ◌+◌, ◌≤◌, ◌<◌, ◌≡◌, ap, ◌∙◌, ◌⊎◌, inl, inr, arith, length}
use native.Mathlib.Decide.{dec_lt}
use os.Log.{Machine, Log, Block, bread, install_trans, write_head}
use os.Log.Copies.{Agrees}
use os.Log.Head.{length-encode_head, encode_head-n}
use os.Log.Install.{
  Placed, Settled, Pending, find_target, install_frame, Untouched-log, install_all, power-install,
  install_Agrees, words,
}
use os.Log.WriteHead.{write_head_frame, write_head_off, disk-write_head}

abbrev pub finish : Log → Machine → Machine
finish log m = write_head (record log { n = 0 }) (install_trans log m)

-- Everything from the log's header on is read as the disk holds it.
abbrev pub LogAgrees : Log → Machine → Type 0
LogAgrees log m = (a : ℕ) → log.start ≤ a → Agrees m a

module _ (log : Log) (p : Placed log) (f : ℕ → Block) (m : Machine) (g : LogAgrees log m)
    (q : Pending log f m.disk) where
  -- The header's sector after install_trans.
  header : (install_trans log m).disk log.start ≡ m.disk log.start
  header = install_frame log p m log.start (Untouched-log log p m log.start (omega arith))

  -- Interrupted, the transaction stays committed.
  pub finish-Pending : m.power ≤ log.n → Pending log f (finish log m).disk
  finish-Pending h =
      rw
        (write_head_off (record log { n = 0 }) (install_trans log m)
          (omega (arith, power-install log p m)))
        (record {
          head_n = rw header q.head_n;
          head_sector = λ t k. rw header (q.head_sector t k);
          len = rw header q.len;
          blocks = λ t k.
              install_frame log p m (log.start + t + 1)
                (Untouched-log log p m (log.start + t + 1) (omega arith))
              ∙ q.blocks t k;
          home = λ a k u. install_frame log p m a u ∙ q.home a k u;
        })

  installed_home : log.n ≤ m.power → (a : ℕ) → a < log.start → (install_trans log m).disk a ≡ f a
  installed_home h a k = elim (find_target log.sector log.n a) [
    | inl (t, l, e) ↦
        rw e (install_all log p m h t l ∙ g (log.start + t + 1) (omega arith) ∙ q.blocks t l)
    | inr u ↦ install_frame log p m a u ∙ q.home a k u
  ]

  -- With power for all of it, the transaction is home and the log is clear.
  pub finish-Settled : log.n < m.power → Settled log.start f (finish log m).disk
  finish-Settled h =
      let m1 = install_trans log m in
      let on = disk-write_head (record log { n = 0 }) m1 (omega (arith, power-install log p m)) in
      let len1 : length (bread m1 log.start) ≡ words =
        ap length (install_Agrees log p m log.start (g log.start (omega arith)) ∙ header) ∙ q.len in
      record {
        clean = rw on (encode_head-n 0 log.sector (bread m1 log.start) (omega (arith, len1)));
        len = rw on (length-encode_head 0 log.sector (bread m1 log.start) ∙ len1);
        home = λ a k.
            write_head_frame (record log { n = 0 }) m1 a (omega arith)
            ∙ installed_home (omega arith) a k;
      }

  pub finish_cases : Pending log f (finish log m).disk ⊎ Settled log.start f (finish log m).disk
  finish_cases = elim (dec_lt log.n m.power) [
    | yes h ↦ inr (finish-Settled h)
    | no h ↦ inl (finish-Pending (omega arith))
  ]
