-- ===== src/Log/WriteHead.antt =====
-- write_head as one write of the header's sector.
use os.Prelude.{ℕ, ◌-◌, ◌<◌, ◌≡◌, ◌≢◌}
use os.Log.{Machine, Log, bread, encode_head, write_head}
use os.Log.Copies.{bwrite_frame, bwrite_self, bwrite_off, power-bwrite, Agrees, bwrite-Agrees}

module _ (log : Log) (m : Machine) where
  pub write_head_frame : (a : ℕ) → a ≢ log.start → (write_head log m).disk a ≡ m.disk a
  unfolding write_head
  write_head_frame a h =
      (bwrite_frame m a log.start (encode_head log.n log.sector (bread m log.start)) h).0

  pub write_head_off : m.power ≡ 0 → write_head log m ≡ m
  unfolding write_head
  write_head_off e = bwrite_off m log.start (encode_head log.n log.sector (bread m log.start)) e

  pub power-write_head : (write_head log m).power ≡ m.power - 1
  unfolding write_head
  power-write_head = power-bwrite m log.start (encode_head log.n log.sector (bread m log.start))

  pub write_head-Agrees : (a : ℕ) → Agrees m a → Agrees (write_head log m) a
  unfolding write_head
  write_head-Agrees a h =
      bwrite-Agrees m a log.start (encode_head log.n log.sector (bread m log.start)) h

  -- What it leaves in the header, while the power is on.
  pub disk-write_head :
      0 < m.power
      → (write_head log m).disk log.start ≡ encode_head log.n log.sector (bread m log.start)
  unfolding write_head
  disk-write_head h =
      (bwrite_self m log.start (encode_head log.n log.sector (bread m log.start)) h).0
