-- ===== src/Log/Recover.antt =====
-- recover_from_log, over a disk with a committed transaction and over one without.
use mathlib.Core.Path.{subst}
use os.Prelude.{ℕ, ◌+◌, ◌<◌, ◌≡◌, refl, sym, ap, ◌∙◌, ◌⊎◌, inl, inr, arith, get_or, length}
use native.Mathlib.Decide.{dec_lt}
use os.Prelude.{for_range_zero}
use os.Log.{
  Machine, Log, Block, bread, install_trans, write_head, read_head, recover_from_log, logsize,
}
use os.Log.Copies.{Agrees}
use os.Log.Head.{fill_all, length-encode_head, encode_head-n}
use os.Log.Install.{Placed, Settled, Pending, target, words}
use os.Log.WriteHead.{write_head_frame, write_head_off, disk-write_head}
use os.Log.Finish.{finish_cases, finish-Settled}

-- Two logs that name the same transaction.
record Same (log log' : Log) : Type 0 where
  start : log'.start ≡ log.start
  n : log'.n ≡ log.n
  targets : (t : ℕ) → t < log.n → target log' t ≡ target log t

Placed-Same : (log log' : Log) → Same log log' → Placed log → Placed log'
Placed-Same log log' s p = record {
  fits = omega (arith, s.n, p.fits);
  before = λ t h.
      omega (arith, s.targets t (omega (arith, s.n)), p.before t (omega (arith, s.n)), s.start);
  distinct = λ a b h k e.
      p.distinct a b h (omega (arith, s.n))
        (sym (s.targets a (omega (arith, s.n))) ∙ e ∙ s.targets b (omega (arith, s.n)));
}

Pending-Same :
    (log log' : Log) (f : ℕ → Block) (d : ℕ → Block)
    → Same log log'
    → Pending log f d
    → Pending log' f d
Pending-Same log log' f d s q = record {
  head_n = rw s.start (q.head_n ∙ sym s.n);
  head_sector = λ t h.
      rw s.start (q.head_sector t (omega (arith, s.n)) ∙ sym (s.targets t (omega (arith, s.n))));
  len = rw s.start q.len;
  blocks = λ t h.
      rw s.start (q.blocks t (omega (arith, s.n)) ∙ ap f (sym (s.targets t (omega (arith, s.n)))));
  home = λ a h u.
      q.home a (omega (arith, s.start))
        (λ t k e. u t (omega (arith, s.n)) (e ∙ sym (s.targets t k)));
}

Same-sym : (log log' : Log) → Same log log' → Same log' log
Same-sym log log' s = record {
  start = sym s.start;
  n = sym s.n;
  targets = λ t h. sym (s.targets t (omega (arith, s.n)));
}

-- read_head finds the committed transaction.
read_head-Same :
    (log log0 : Log) (f : ℕ → Block) (m : Machine)
    → log0.start ≡ log.start
    → length log0.sector ≡ logsize
    → Placed log
    → Pending log f m.disk
    → Agrees m log.start
    → Same log (read_head log0 m)
unfolding read_head
read_head-Same log log0 f m e len p q g =
    let head : bread m log0.start ≡ m.disk log.start = rw e g in
    let n0 : get_or (bread m log0.start) 0 0 ≡ log.n = rw head q.head_n in
    record {
      start = e;
      n = n0;
      targets = λ t h.
          fill_all (λ i. i) (λ i. get_or (bread m log0.start) (i + 1) 0)
            (get_or (bread m log0.start) 0 0) 0 log0.sector (λ t u l. omega arith)
            (λ t a b. omega (arith, p.fits)) t (omega arith) (omega arith)
          ∙ rw head (q.head_sector t h);
    }

Settled-at : {a b : ℕ} (f d : ℕ → Block) → a ≡ b → Settled a f d → Settled b f d
Settled-at f d e h = subst (λ a. Settled a f d) e h

-- With a committed transaction on the disk.
pub recover-Pending :
    (log log0 : Log) (f : ℕ → Block) (m : Machine)
    → log0.start ≡ log.start
    → length log0.sector ≡ logsize
    → Placed log
    → Pending log f m.disk
    → ((a : ℕ) → Agrees m a)
    → (Pending log f (recover_from_log log0 m).1.disk
        ⊎ Settled log.start f (recover_from_log log0 m).1.disk)
      × (log.n < m.power → Settled log.start f (recover_from_log log0 m).1.disk)
unfolding recover_from_log
recover-Pending log log0 f m e len p q g =
    let log1 = read_head log0 m in
    let s = read_head-Same log log0 f m e len p q (g log.start) in
    let p1 = Placed-Same log log1 s p in
    let q1 = Pending-Same log log1 f m.disk s q in
    (
      elim (finish_cases log1 p1 f m (λ a h. g a) q1) [
        | inl r ↦ inl (Pending-Same log1 log f _ (Same-sym log log1 s) r)
        | inr r ↦ inr (Settled-at f _ s.start r)
      ],
      λ h. Settled-at f _ s.start (finish-Settled log1 p1 f m (λ a h. g a) q1 (omega (arith, s.n))),
    )

start-read_head : (log : Log) (m : Machine) → (read_head log m).start ≡ log.start
unfolding read_head
start-read_head log m = refl

clean_head :
    (start : ℕ) (log0 : Log) (f : ℕ → Block) (m : Machine)
    → log0.start ≡ start
    → Settled start f m.disk
    → ((a : ℕ) → Agrees m a)
    → (read_head log0 m).n ≡ 0
unfolding read_head
clean_head start log0 f m e q g = rw (e, g start) q.clean

install_none : (log : Log) (m : Machine) → log.n ≡ 0 → install_trans log m ≡ m
unfolding install_trans
install_none log m e = for_range_zero log.n 0 _ m e

-- A cleared header written over a settled disk.
pub cleared :
    (log : Log) (f : ℕ → Block) (m m1 : Machine)
    → log.n ≡ 0
    → Agrees m log.start
    → m1 ≡ m
    → Settled log.start f m.disk
    → Settled log.start f (write_head log m1).disk
cleared log f m m1 z g same q = rw same (elim (dec_lt 0 m.power) [
  | yes h ↦
      let len1 : length (bread m log.start) ≡ words = ap length g ∙ q.len in
      let on = disk-write_head log m h in
      record {
        clean =
            rw on (encode_head-n log.n log.sector (bread m log.start) (omega (arith, len1)) ∙ z);
        len = rw on (length-encode_head log.n log.sector (bread m log.start) ∙ len1);
        home = λ a k. write_head_frame log m a (omega arith) ∙ q.home a k;
      }
  | no h ↦ rw (write_head_off log m (omega arith)) q
])

-- With none.
pub recover-Settled :
    (start : ℕ) (log0 : Log) (f : ℕ → Block) (m : Machine)
    → log0.start ≡ start
    → Settled start f m.disk
    → ((a : ℕ) → Agrees m a)
    → Settled start f (recover_from_log log0 m).1.disk
unfolding recover_from_log
recover-Settled start log0 f m e q g =
    let log1 = read_head log0 m in
    let s1 = start-read_head log0 m ∙ e in
    Settled-at f _ s1 (
      cleared (record log1 { n = 0 }) f m (install_trans log1 m) refl (g log1.start)
        (install_none log1 m (clean_head start log0 f m e q g)) (Settled-at f _ (sym s1) q))
