-- ===== src/Lib.antt =====
-- A verification of the core of Pintos, the kernel under src: its scheduler with priority
-- donation, its semaphores and locks, its bitmaps, its lists and hash tables, its file system,
-- its pages and frames with their eviction to swap, and the strings, sorting and searching of its
-- library.
--
-- How the parts interact. The scheduler (src/threads/thread.c) keeps threads in lists in the
-- order of their priorities; semaphores and locks (src/threads/synch.c) put threads to sleep and
-- wake them by it, and donate priorities to the holders of locks. An inode (src/filesys/inode.c)
-- takes its sectors from the free map (src/filesys/free-map.c), which is a bitmap
-- (src/lib/kernel/bitmap.c) with a file behind it, and keeps its data and index blocks on a block
-- device (src/devices/block.c). The page allocator (src/threads/palloc.c) keeps a bitmap of each
-- pool. The supplemental page table (src/vm/sup_page_table.c) is a hash table; eviction
-- (src/vm/swap.c) takes a frame from the frame table (src/vm/frame_table.c) and writes its page
-- to a slot of the swap device or to its file.
--
-- Files.
-- - Prelude: shared names; Prelude.Run is code that may fail an ASSERT: a result or a panic of
--   the kernel. Returns P r says that r does not panic and that its result satisfies P.
-- - Bits: the laws of the operations on the bits of words.
-- - Kernel.Bitmap: src/lib/kernel/bitmap.c, with a word for 32 bits in a list. Single, Range,
--   Quantify and Scan are about one bit, a range, a test of a range and a search, by the view of
--   a bitmap as a function from positions to Booleans; Storage is creation and the traffic with a
--   file.
-- - Kernel.Queue: the operations of src/lib/kernel/list.c that the scheduler uses. A list is the
--   sequence of its elements; that an element is in at most one place is part of the invariants.
-- - Kernel.Linked: src/lib/kernel/list.c on the memory, with the next and prev fields by the
--   addresses of the elements. Loops are the passes over a list, Sort is list_sort; Segment says
--   which sequence a list links; Rewrite, Insert, Remove and Passes relate the operations to
--   those on sequences. The order `less` is a parameter.
-- - Kernel.Hash: src/lib/kernel/hash.c, with a bucket as the sequence of its elements and what
--   malloc gives as an argument. Bytes are the sample hash functions, Iterate is the iterator;
--   Power is about the number of buckets, Contents, Sums, Counts and Move about what is in them,
--   Table and Leave about the operations, Agree about a change of the hash and the order.
-- - Threads.Machine: struct thread, struct semaphore and the static variables of
--   threads/thread.c, with threads, locks and semaphores known by their addresses. The semaphore
--   in a lock stands at the address of the lock.
-- - Threads.Scheduler: src/threads/thread.c. Queued is the invariant of the ready list, Switch is
--   schedule, Callers are thread_block, thread_yield, thread_exit and thread_unblock, Donate and
--   Propagate are thread_update_priority and thread_propagate_priority.
-- - Threads.Synch: src/threads/synch.c. Semas, Locks, Acquire, Release, Try and Conditions are
--   about the operations of semaphores, locks and condition variables, Lower is
--   thread_set_priority.
-- - Threads.Timer: src/devices/timer.c; Sleepers is the loop of the interrupt handler, Ticks the
--   handler and thread_tick.
-- - Threads.Palloc: src/threads/palloc.c; Grants is about the pages that are given, Frees about
--   giving them back, Start about palloc_init.
-- - Devices.Intq: src/devices/intq.c; Ring is about its view as a sequence of bytes.
-- - Vm.Evict: swap_evict_frame and swap_reclaim_page of src/vm/swap.c, over the frame table, the
--   entries of pages, files and swap slots; Reclaim is about what is read back.
-- - Vm.Frames: src/vm/frame_table.c; Clock is frame_table_pop_lru.
-- - Vm.Pages: src/vm/sup_page_table.c; Entries is about the search by an address.
-- - Vm.Swap: src/vm/swap.c; Slots is about the pages of the slots.
-- - Devices.Block: src/devices/block.c, with a sector as a function from offsets to bytes.
-- - Filesys.FreeMap: src/filesys/free-map.c, over the interface MapFile to the file of the map.
--   The sectors of this file are part of the field `file` of the model, which has what they hold:
--   they are marked in the map and belong to no other file. MapFile asks that a write that
--   reports all bytes of the map has stored them; of a shorter write nothing is asked.
-- - Filesys.Inode: src/filesys/inode.c. Slots is the specification of where the sectors of a file
--   stand and that they are distinct and taken; Locate is the search for a sector, Extend is
--   inode_extend, its children are about the branches, the loop and the whole. Access is
--   inode_read_at and inode_write_at, with Read, Patch and Write about the bytes of a file;
--   Deallocate is inode_deallocate.
-- - Filesys.Opened: the table of open inodes of src/filesys/inode.c; Counts is about the openers.
--   The field `memory` of the state is what the allocator gives in the next calls, and a call
--   that may ask for a bounce buffer takes one of them.
-- - Filesys.File: src/filesys/file.c. Filesys.Directory: src/filesys/directory.c, with an entry
--   as its twenty bytes. Filesys.Paths: resolve_path and its callers in src/filesys/filesys.c.
-- - Strings: src/lib/string.c; Copies is about memmove and strlcpy, Compare about strcmp.
-- - Stdlib: src/lib/stdlib.c; Search is about binary_search, Heap about where sort writes.
-- - Tests: runs at concrete inputs, and the theorems at inputs that meet their hypotheses.
--
-- Control. A function that returns after a change of threads is cut where schedule is called: the
-- model ends with the thread that is then current, and the rest is run when the thread is
-- scheduled again. So sema_down is a round of its loop, which says whether the thread got
-- through, and lock_acquire is its beginning and such a round. The levels that intr_set_level
-- restores at the end of a function are those of the thread that ran it.
--
-- Numbers and bounds. Words of 32 bits and size_t keep their wrap-around in the bitmap. So do the
-- value of a semaphore, in sema_up, and the addresses in palloc_init. Priorities, ticks and the
-- counts of openers are natural numbers: PRI_MIN is 0, and thread_set_priority with a negative
-- number is outside the model. The walk of a donation has DONATION_DEPTH rounds, as in the
-- source. The loops over bitmaps and sectors run by the rounds that are left: the number of
-- rounds is the number of bits or sectors that the loop goes over. The passes over a linked list,
-- the characters of a string and the entries of a directory take fuel, a unit for each round, and
-- panic without it; the statements about them ask for one unit more than there are elements. The
-- loop of inode_read_at and that of inode_write_at take the size of the request, of which a round
-- takes at least a byte, and the loop of rehash on the number of buckets takes that number, which
-- a round makes smaller. A round of heapify goes from an element to a child of it, and sort gives
-- it one unit more than there are elements; binary_search is stated for one unit more than there
-- are elements.
--
-- Not modelled: the allocation of blocks of memory, page directories, the loading of pages and
-- memory mappings, processes and system calls, the console commands of the file system, the
-- drivers, the standard library but for strings, sorting and searching, and the user programs.
pub mod Bits
pub mod Devices
pub mod Filesys
pub mod Kernel
pub mod Prelude
pub mod Stdlib
pub mod Strings
mod Tests
pub mod Threads
pub mod Vm
