-- ===== src/Threads.antt =====
-- threads/ and devices/timer.c: threads, their scheduling and their synchronization.
pub mod Machine
pub mod Palloc
pub mod Scheduler
pub mod Synch
pub mod Timer
