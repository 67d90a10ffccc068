-- ===== src/Kernel.antt =====
-- lib/kernel: the data structures of the kernel.
pub mod Bitmap
pub mod Hash
pub mod Linked
pub mod Queue
