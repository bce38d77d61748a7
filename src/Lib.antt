-- ===== src/Lib.antt =====
-- A model of the kernel of this repository, xv6 with kernel threads, and theorems about it.
--
-- The parts and their files:
--
--   Pipe     pipe.c: the ring of bytes between two descriptors, and who sleeps on its counters
--            (pipewrite, piperead, pipeclose; of pipealloc the state of a new ring, `fresh`).
--   Log      log.c: the redo log under the file system, over a disk that may lose power (initlog,
--            begin_op, end_op in its two halves `leave_op` and `finish_op`, log_write, commit).
--   Bio      bio.c and memide.c: the cache of disk blocks and the memory disk behind it (binit, bget,
--            bread as bget and `fill`, bwrite, brelse, iderw).
--   Files    file.c and the descriptors of sysfile.c: reference counts of open files (filealloc,
--            filedup, fileclose, argfd, fdalloc, sys_dup, sys_close). Files/Io has filestat, fileread
--            and filewrite, on the inode of the file as Fs/Content has it.
--   Kalloc   kalloc.c: the free list of physical pages (kinit1, kinit2, freerange, kfree, kalloc).
--   Proc     proc.c and kthread.c: the table of processes and of their threads. Proc/Create has
--            allocproc and fork, Proc/Exit exit, Proc/Wait wait, Proc/Kill kill, Proc/Wakeup
--            wakeup, yield and what sleep does to the thread, Proc/Sleep sleep with its locks, step by
--            step against a process that calls wakeup, Proc/Schedule the scan of scheduler, Proc/Init
--            userinit, Proc/Threads the calls of kthread.c.
--   Args     syscall.c: the arguments of a system call, read from the user's stack (fetchint, fetchstr,
--            argint, argptr, argstr).
--   Console  console.c: the ring of input characters, consoleintr and consoleread.
--   Sys      sysproc.c: the system calls on processes, threads and time.
--   Spinlock spinlock.c: a lock between processors, where each access of a processor to it is one step
--            of a schedule, and pushcli and popcli.
--   Text     string.c: the kernel's string functions.
--   Fs       fs.c. Fs/Disk has the blocks and the superblock (readsb, bzero), Fs/Bitmap balloc and
--            bfree, Fs/Inode the inode and iupdate, Fs/Content bmap, itrunc, readi, writei and stati,
--            Fs/Icache the cache of inodes (iget, idup, ilock, iunlock, iput, ialloc), Fs/Dir
--            namecmp, dirlookup and dirlink, Fs/Path skipelem and the names that namex gets from a path,
--            Fs/Names namex. A disk is its contents within one transaction: bread reads what the last
--            log_write of the block left.
--   Mkfs     mkfs.c: the superblock and the bitmap of the image.
--   Grep     grep.c: the matcher of regular expressions (match, matchhere, matchstar).
--   Printf   printf.c, and atoi of ulib.c.
--   Prelude  the names, list functions and tests on numbers that all of these share.
--
-- How they interact in the program: a process sleeps and is woken on channels (Proc), which pipes, the
-- log and the buffer cache use; files count the references to pipes and inodes; the log writes through
-- the buffer cache. In the model each part stands alone. Where one part calls another its model keeps
-- what it needs of it: the log has its own view of cache and disk (`Log.Machine`), a pipe keeps count
-- of the threads that sleep on it (`Pipe.Sleepers`), a file that is closed for good names what is to be
-- done with its pipe or inode (`Files.Closed`).
--
-- How state and operations correspond to the code: a struct is a record with the same fields, a function
-- of the source is a function from the state to the state and the answer; `none` or a constructor
-- `panicked` is a panic, or the use of a null pointer where its comment says so. Code that holds a lock
-- from end to end is one step, except in Proc/Sleep, where each acquire and release is one. A call that
-- sleeps ends there, with what it has left to do in its answer, and is made again when it is woken. A
-- pointer into a table is a place in it. Where p->threads is null, exit reads the caller's own memory
-- from address 0 on, which is an argument of the model (`low`).
--
-- Numbers: uint and int are natural numbers; the wrap-around at 2 ^ 32 is written out where the source
-- computes with values that can reach it (the counters of a pipe, log.outstanding, addresses). Loops are
-- recursion on a list or on a count of rounds. Two run on fuel: that of `Kalloc.freerange` for 2 ^ 20 + 1
-- rounds, one more than there are pages in the address space, and that of `Console.kill_line` for 128, as
-- many as there are characters in the ring.
--
-- Power failures: a `Log.Machine` counts the sector writes that are still carried out; a later write
-- leaves the disk as it is. A crash loses the cache and keeps the disk, and a sector write is not torn.
--
-- Not modelled: the calls on files by name (most of sysfile.c), page tables and exec (vm.c,
-- exec.c), traps, devices and boot code, which is hardware access or assembly for the most part, and the
-- other user programs.
mod Prelude
pub mod Pipe
pub mod Args
pub mod Text
pub mod Spinlock
pub mod Sys
pub mod Console
pub mod Grep
pub mod Mkfs
pub mod Printf
pub mod Fs
pub mod Kalloc
pub mod Bio
pub mod Files
pub mod Log
pub mod Proc
