-- ===== src/Fs2xml.antt =====
-- tools/fs2xml.c: the tool that merges .tar.bz2 packages into one inode table and writes it out as a
-- directory tree, fs.xml and fs.json.
pub mod Inode
pub mod Names
pub mod Paths
pub mod PosixHeader
pub mod Merge
pub mod Untar
pub mod Walk
pub mod Disk
pub mod Main
mod Tests
