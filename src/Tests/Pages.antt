-- ===== src/Tests/Pages.antt =====
-- vm/swap.c on a device of ten slots, of which four are in use.
use implso.Prelude.{◌*◌, ◌%◌, refl, true, false, [], some, arith}
use implso.Prelude.Run.{Returns}
use implso.Vm.Swap.{Swap}
use implso.Vm.Swap.Slots.{IsSwap}
use implso.Vm.Evict.{Paging, evict_entry}
use implso.Vm.Evict.Reclaim.{EvictResult, evict_entry-swap_reclaim_page}
use implso.Vm.Pages.{zero_entry}
use implso.Tests.Bitmaps.{ten, ten-IsValid}
use implso.Tests.Inodes.{disk, opened_twice}

abbrev swap : Swap
swap = record {
  block = record { size = 80; foreign = false; sectors = λ s o. s };
  slots = some ten;
}

swap-IsSwap : IsSwap ten swap
swap-IsSwap = record {
  valid = ten-IsValid;
  mounted = refl;
  slots = record { room = omega arith; writable = refl };
}

-- The entry 1 of the page 0x5000 of thread 7, in the frame 0x9000.
abbrev paging : Paging
paging = record {
  frames = record {
    entries = λ fte. record { frame = fte * 0x9000; owner = 7; aux = 5 };
    table = [];
    pages = λ a. zero_entry (a * 4096);
    has_pagedir = λ owner. true;
    accessed = λ owner vaddr. false;
  };
  swap = swap;
  memory = λ frame o. o % 256;
  dirty = λ owner vaddr. true;
  mapped = λ owner vaddr. true;
  files = λ a. record { inode = 0; pos = 0; deny_write = false };
  fs = opened_twice;
}

evict_entry-swap_reclaim_page_example :
    Returns (EvictResult ten 1 paging) (evict_entry disk 1 paging)
evict_entry-swap_reclaim_page_example =
    evict_entry-swap_reclaim_page disk 1 paging ten (λ e. omega (arith, e)) (λ e. omega (arith, e))
      refl refl swap-IsSwap
