-- ===== src/Fs.antt =====
-- fs.c: the file system on the disk.
pub mod Path
pub mod Disk
pub mod Words
pub mod Bitmap
pub mod Inode
pub mod Samples
pub mod Content
pub mod Icache
pub mod Dir
pub mod Names
