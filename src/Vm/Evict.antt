-- ===== src/Vm/Evict.antt =====
-- swap_evict_frame and swap_reclaim_page of vm/swap.c: a frame is taken from its page, which is written
-- to its file or to a swap slot. The locks are left out.
pub mod Reclaim
use implso.Prelude.{
  ℕ, Bool, true, false, not, ◌&&◌, ◌||◌, Option, none, some, ◌==◌, leb, if◌then◌else◌,
}
use implso.Prelude.Run.{Run, ok, panic, ◌>>=◌}
use implso.Kernel.Bitmap.{Bitmap, bitmap_error}
use implso.Filesys.File.{File, write_at}
use implso.Filesys.FreeMap.{MapFile}
use implso.Filesys.Opened.{Fs}
use implso.Vm.Frames
use implso.Vm.Frames.{Frames, FrameEntry, pop_lru}
use implso.Vm.Pages.{PageSource, SupPage, put_page, zero_page, swapped, file_backed}
use implso.Vm.Swap.{Frame, Swap, swap_out, read_from_block, slot_of}

-- The bytes of the frames by their addresses, the dirty and the present bits of the page directories,
-- and the open files of the pages.
pub record Paging : Type 0 where
  pub frames : Frames
  pub swap : Swap
  pub memory : ℕ → Frame
  pub dirty : (owner vaddr : ℕ) → Bool
  pub mapped : (owner vaddr : ℕ) → Bool
  pub files : ℕ → File
  pub fs : Fs

abbrev pub page_of : Paging → (fte : ℕ) → SupPage
page_of s fte = s.frames.pages (s.frames.entries fte).aux

-- frame_table_insert
abbrev pub put_back : (fte : ℕ) → Paging → Paging
put_back fte s = record s { frames = Frames.insert fte s.frames }

-- The page without its frame: pagedir_clear_page, and what is written to the entry of the page.
unfoldable pub unload : (fte : ℕ) → PageSource → (index : ℕ) → Paging → Paging
unload fte source index s =
    let e = s.frames.entries fte in
    let page = page_of s fte in
    let page' : SupPage = record page {
      is_loaded = false;
      source = source;
      swap_slot_index = index;
    } in
    record s {
      frames = record s.frames { pages = put_page e.aux page' s.frames.pages };
      mapped = λ owner va. not ((owner == e.owner) && (va == page.user_vaddr)) && s.mapped owner va;
    }

-- What follows the search for a slot.
unfoldable pub swapped_to : (fte : ℕ) → Option ℕ → Paging → Option ℕ × Paging
swapped_to fte none s = (none, put_back fte s)
swapped_to fte (some index) s = (some (s.frames.entries fte).frame, unload fte swapped index s)

-- The search for a slot, in the bitmap of the slots if there is one, and the write of the frame.
unfoldable pub swap_with : Option Bitmap → (fte : ℕ) → Paging → Run (Option ℕ × Paging)
swap_with none fte s = panic
swap_with (some b) fte s = do
  (index, swap) ← swap_out (s.memory (s.frames.entries fte).frame) b s.swap
  ok (swapped_to fte index (record s { swap = swap }))

unfoldable pub to_swap : (fte : ℕ) → Paging → Run (Option ℕ × Paging)
to_swap fte s = swap_with s.swap.slots fte s

module _ (disk : MapFile) where
  -- The write of a dirty page of a mapping to its file, and whether all of it is written.
  unfoldable pub write_back : (fte : ℕ) → Paging → Run (Bool × Paging)
  write_back fte s =
      let e = s.frames.entries fte in
      let page = page_of s fte in
      if not (page.mapping == 0) && s.dirty e.owner page.user_vaddr
      then (do
        (written, fs') ←
            write_at disk (s.files page.file) (s.memory e.frame) page.read_bytes page.ofs s.fs
        ok (written == page.read_bytes, record s { fs = fs' }))
      else ok (true, s)

  -- What follows the write.
  unfoldable pub after_write : (fte : ℕ) → Bool × Paging → Run (Option ℕ × Paging)
  after_write fte (false, s) = ok (none, put_back fte s)
  after_write fte (true, s) =
      let page = page_of s fte in
      if (page.mapping == 0) && page.writable
      then to_swap fte s
      else ok (some (s.frames.entries fte).frame, unload fte file_backed bitmap_error s)

  unfoldable pub evict_page : PageSource → (fte : ℕ) → Paging → Run (Option ℕ × Paging)
  evict_page file_backed fte s = do r ← write_back fte s; after_write fte r
  evict_page zero_page fte s = to_swap fte s
  evict_page swapped fte s = to_swap fte s

  unfoldable pub evict_entry : (fte : ℕ) → Paging → Run (Option ℕ × Paging)
  evict_entry fte s =
      let e = s.frames.entries fte in
      if (e.aux == 0) || ((e.owner == 0) || not (s.frames.has_pagedir e.owner))
      then ok (none, s)
      else evict_page (page_of s fte).source fte s

  -- What follows frame_table_pop_lru.
  unfoldable pub evict_found : Option ℕ → Paging → Run (Option ℕ × Paging)
  evict_found none s = ok (none, s)
  evict_found (some fte) s = evict_entry fte s

  unfoldable pub swap_evict_frame : (now : ℕ) → Paging → Run (Option ℕ × Paging)
  swap_evict_frame now s = do
    let (fte, frames) = pop_lru now s.frames
    evict_found fte (record s { frames = frames })

abbrev pub is_swapped : PageSource → Bool
is_swapped swapped = true
is_swapped zero_page = false
is_swapped file_backed = false

-- read_from_block into the frame of the entry.
unfoldable pub read_into : (frame index : ℕ) → Paging → Run (Bool × Paging)
read_into frame index s = do
  bytes ← read_from_block s.swap.block (s.memory frame) index
  ok (true, record s { memory = λ x. if x == frame then bytes else s.memory x })

-- What follows the tests for NULL, for the page and the address of the frame.
unfoldable pub reclaim : SupPage → (frame : ℕ) → Paging → Run (Bool × Paging)
reclaim page frame s =
    if page.is_loaded || not (is_swapped page.source)
    then ok (false, s)
    else elim (slot_of s.swap.slots page.swap_slot_index) [
      | none ↦ ok (false, s)
      | some b ↦ read_into frame page.swap_slot_index s
    ]

-- `spte` and `fte` are addresses, and 0 is NULL.
unfoldable pub swap_reclaim_page : (spte fte : ℕ) → Paging → Run (Bool × Paging)
swap_reclaim_page spte fte s =
    if (spte == 0) || (fte == 0)
    then ok (false, s)
    else reclaim (s.frames.pages spte) (s.frames.entries fte).frame s
