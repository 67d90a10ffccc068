-- ===== src/Filesys.antt =====
-- filesys: the file system.
pub mod Directory
pub mod File
pub mod FreeMap
pub mod Inode
pub mod Opened
pub mod Paths
