-- ===== src/Files/Io/Tests.antt =====
-- Reads and writes of an open file on the sample disk, and the theorem at it.
use os.Prelude.{◌≡◌, refl, true, false}
use os.Fs.Samples.{small_disk, no_device, file}
use os.Files.{File, fd_inode}
use os.Files.Io.{failed, fileread}

abbrev open_file : File
open_file = record {
  type = fd_inode;
  ref = 1;
  readable = false;
  writable = true;
  pipe = 0;
  ip = 0;
  off = 511;
}

not_readable : fileread no_device 5 open_file file small_disk ≡ failed
unfolding fileread
not_readable = refl
