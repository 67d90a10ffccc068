-- ===== src/Vm.antt =====
-- vm: virtual memory.
pub mod Evict
pub mod Frames
pub mod Pages
pub mod Swap
