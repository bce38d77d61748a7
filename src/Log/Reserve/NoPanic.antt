-- ===== src/Log/Reserve/NoPanic.antt =====
-- Reserved space and the panics of log_write and end_op.
use os.Prelude.{ℕ, ◌-◌, ◌≡◌, inl, inr, none, arith}
use os.Log.{Log, Block, log_write, logsize}
use os.Log.Write.{log_write-Logs}
use os.Log.Reserve.{Sys, Reach, here, next, Reserved}
use os.Log.Reserve.Steps.{Move-Reserved}

-- The reservation is kept by any sequence of moves.
pub Reach-Reserved : {s t : Sys} → Reserved s → Reach s t → Reserved t
Reach-Reserved r here = r
Reach-Reserved r (next h v) = Move-Reserved v (Reach-Reserved r h)

-- In a log of LOGSIZE blocks, header included, log_write panics once LOGSIZE - 1 are logged.
pub log_write_mkfs_panics :
    (s : Sys) (a : ℕ) (b : Block)
    → Reserved s
    → s.log.size ≡ logsize
    → s.log.n ≡ logsize - 1
    → log_write s.log s.machine a b ≡ none
log_write_mkfs_panics s a b r e n = elim (log_write-Logs s.log s.machine a b r.array) [
  | inl p ↦ p.1
  | inr w ↦ ground (arith, w.1)
]
