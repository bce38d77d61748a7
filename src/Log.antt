-- ===== src/Log.antt =====
-- log.c: the redo log, over a disk whose power may fail after any write.
-- A machine counts the sector writes that are still carried out before the power fails; a write
-- after that leaves the disk as it is. A crash loses the buffer cache and keeps the disk.
pub mod Copies
pub mod Head
pub mod WriteHead
pub mod Install
pub mod Finish
pub mod Recover
pub mod Boot
pub mod Commit
pub mod Write
pub mod Reserve
mod Tests
use os.Prelude.{
  ℕ, zero, suc, ◌+◌, ◌-◌, ◌*◌, ◌%◌, ◌^◌, ◌<◌, ◌≡◌, Bool, true, false, ◌||◌, ◌&&◌, not, List, [],
  ◌∷◌, Option, none, some, ◌==◌, ltb, leb, if◌then◌else◌, get_or, set, replicate, for_range,
}

abbrev pub maxopblocks : ℕ
maxopblocks = 10

-- LOGSIZE
abbrev pub logsize : ℕ
logsize = maxopblocks * 3

-- A sector as BSIZE / 4 little-endian words, as log.c reads and writes it.
abbrev pub Block : Type 0
Block = List ℕ

-- The disk, and the buffers that are pinned in the cache by B_DIRTY; any other buffer agrees with
-- the disk, since bwrite and the log are the only writers.
pub record Machine : Type 0 where
  pub disk : ℕ → Block
  pub dirty : ℕ → Option Block
  pub power : ℕ

abbrev pub update {ℓ} : {A : Type ℓ} → (ℕ → A) → ℕ → A → ℕ → A
update f a v b = if a == b then v else f b

-- bread: the data of the buffer for a sector.
pub bread : Machine → ℕ → Block
bread m a = elim (m.dirty a) [ none ↦ m.disk a | some b ↦ b ]

-- bwrite: write a buffer through to the disk; it is clean from then on.
bwrite_powered : ℕ → Machine → ℕ → Block → Machine
bwrite_powered zero m a b = m
bwrite_powered (suc k) m a b = record {
  disk = update m.disk a b;
  dirty = update m.dirty a none;
  power = k;
}

pub bwrite : Machine → ℕ → Block → Machine
bwrite m a b = bwrite_powered m.power m a b

-- struct log with its struct logheader; `n` and `sector` are those of log.lh.
pub record Log : Type 0 where
  pub start : ℕ
  pub size : ℕ
  pub outstanding : ℕ
  pub committing : Bool
  pub n : ℕ
  pub sector : List ℕ

-- The body of the loop in install_trans and in write_log: copy one sector to another.
pub copy : ℕ → ℕ → Machine → Machine
copy from to m = bwrite m to (bread m from)

pub install_trans : Log → Machine → Machine
install_trans log m =
    for_range log.n 0 (λ tail. copy (log.start + tail + 1) (get_or log.sector tail 0)) m

pub write_log : Log → Machine → Machine
write_log log m =
    for_range log.n 0 (λ tail. copy (get_or log.sector tail 0) (log.start + tail + 1)) m

-- hb->n, hb->sector[0..n) as the words of a block.
pub encode_head : ℕ → List ℕ → Block → Block
encode_head n sector b = for_range n 0 (λ i hb. set hb (i + 1) (get_or sector i 0)) (set b 0 n)

pub write_head : Log → Machine → Machine
write_head log m = bwrite m log.start (encode_head log.n log.sector (bread m log.start))

pub read_head : Log → Machine → Log
read_head log m =
    let buf = bread m log.start in
    record log {
      n = get_or buf 0 0;
      sector = for_range (get_or buf 0 0) 0 (λ i s. set s i (get_or buf (i + 1) 0)) log.sector;
    }

pub recover_from_log : Log → Machine → Log × Machine
recover_from_log log m =
    let log1 = read_head log m in
    let m1 = install_trans log1 m in let log2 = record log1 { n = 0 } in (log2, write_head log2 m1)

pub commit : Log → Machine → Log × Machine
commit log m =
    if ltb 0 log.n
    then (let m1 = write_log log m in
        let m2 = write_head log m1 in
        let m3 = install_trans log m2 in
        let log1 = record log { n = 0 } in (log1, write_head log1 m3))
    else (log, m)

-- The fields of the super block that initlog reads, as words of sector 1.
abbrev pub sb_size : Block → ℕ
sb_size sb = get_or sb 0 0

abbrev pub sb_nlog : Block → ℕ
sb_nlog sb = get_or sb 3 0

-- `struct log log`, as the loader leaves it, all zero.
abbrev pub zeroed : Log
zeroed = record {
  start = 0;
  size = 0;
  outstanding = 0;
  committing = false;
  n = 0;
  sector = replicate logsize 0;
}

-- The super block of an image that mkfs made has sb_nlog ≤ sb_size.
pub initlog : Machine → Log × Machine
initlog m =
    let sb = bread m 1 in
    recover_from_log (record zeroed { start = sb_size sb - sb_nlog sb; size = sb_nlog sb }) m

-- The machine after a power cut and a restart, good for `k` more writes: memory is lost.
pub restart : ℕ → Machine → Machine
restart k m = record { disk = m.disk; dirty = λ a. none; power = k }

-- Restarts that crash again, each after so many writes.
pub restarts : List ℕ → Machine → Machine
restarts [] m = m
restarts (k ∷ ks) m = restarts ks (initlog (restart k m)).1

-- int arithmetic on the bit pattern of log.outstanding.
abbrev pub decrement : ℕ → ℕ
decrement o = (o + 2 ^ 32 - 1) % 2 ^ 32

-- o < 1, of a signed int.
abbrev pub lt_one : ℕ → Bool
lt_one o = leb (2 ^ 31) o || ltb o 1

-- log.lh.n + (log.outstanding+1)*MAXOPBLOCKS, and whether that is more than LOGSIZE.
abbrev pub wanted : Log → ℕ
wanted log = (log.n + (log.outstanding + 1) * maxopblocks) % 2 ^ 32

abbrev pub no_room : Log → Bool
no_room log = ltb (wanted log) (2 ^ 31) && ltb logsize (wanted log)

-- One round of the loop of begin_op: `none` if the caller goes to sleep on the log.
pub begin_op : Log → Option Log
begin_op log =
    if log.committing
    then none
    else if no_room log
    then none
    else some (record log { outstanding = (log.outstanding + 1) % 2 ^ 32 })

-- What the first half of end_op, which holds the lock, decides.
pub data Leave : Type 0 where
  panicked : Leave
  stays : Log → Leave
  commits : Log → Leave

-- The first half; its wakeup(&log) is the waiters' affair.
pub leave_op : Log → Leave
leave_op log =
    let o = decrement log.outstanding in
    if log.committing
    then panicked
    else if o == 0
    then commits (record log { outstanding = o; committing = true })
    else stays (record log { outstanding = o })

-- The second half, by the caller that found `do_commit` set.
pub finish_op : Log → Machine → Log × Machine
finish_op log m = let (log', m') = commit log m in (record log' { committing = false }, m')

-- The search loop of log_write, with `rounds` rounds left at index i.
pub find_sector : List ℕ → ℕ → ℕ → ℕ → ℕ
find_sector sector a zero i = i
find_sector sector a (suc rounds) i =
    let next = find_sector sector a rounds (i + 1) in if get_or sector i 0 == a then i else next

-- log_write of the buffer for sector `a`, whose data the caller has made `b`; `none` is a panic.
pub log_write : Log → Machine → ℕ → Block → Option (Log × Machine)
log_write log m a b =
    if leb logsize log.n || leb (log.size - 1) log.n
    then none
    else if lt_one log.outstanding
    then none
    else let i = find_sector log.sector a log.n 0 in
      some (
        record log { n = if i == log.n then log.n + 1 else log.n; sector = set log.sector i a },
        record m { dirty = update m.dirty a (some b) },
      )
