-- ===== src/Files/Io/Writes.antt =====
-- filewrite against the content of the inode.
use os.Prelude.{ℕ, ◌+◌, ◌*◌, ◌≤◌, ◌<◌, ◌≡◌, List, [], ◌⊎◌, length}
use os.Fs.Disk.{bsize, Disk}
use os.Fs.Inode.{Inode, maxfile}
use os.Fs.Content.Holes.{Full, Wants}
use os.Fs.Content.Write.{Written}
use os.Fs.Content.Refine.{new_size}
use os.Files.{File}
use os.Files.Io.{Io, panicked, failed, to_pipe, to_device, answers, stopped}

module _ (n size : ℕ) where
  -- What the loop of filewrite comes to.
  pub Transfers : List ℕ → File → Inode → Disk → Io ℕ → Type 0
  Transfers src f ip disk panicked = Full n size (Wants f.off (length src)) ip disk
  Transfers src f ip disk failed = ⊥
  Transfers src f ip disk (to_pipe p) = ⊥
  Transfers src f ip disk (to_device d) = ⊥
  Transfers src f ip disk (stopped f' ip' disk') = maxfile * bsize < f.off + length src
  Transfers src f ip disk (answers i f' ip' disk') =
      Written n size src f.off ip disk ip' disk'
      × (f' ≡ record f { off = f.off + length src })
      × (ip' ≡ record ip { addrs = ip'.addrs; size = new_size f.off (length src) ip })
      × ((src ≡ []) ⊎ (f.off + length src ≤ maxfile * bsize))
