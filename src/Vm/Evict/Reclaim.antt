-- ===== src/Vm/Evict/Reclaim.antt =====
-- vm/swap.c: what swap_reclaim_page reads after a page has lost its frame.
use implso.Prelude.{
  ℕ, ◌<◌, ◌≡◌, ◌≢◌, refl, ap, ◌∙◌, true, false, Option, none, some, arith, ◌==◌, if◌then◌else◌,
  ==_self, Bool-cases, inl, inr,
}
use implso.Prelude.Run
use implso.Prelude.Run.{Run, ok, ◌>>=◌, Returns, returns}
use implso.Kernel.Bitmap.{Bitmap, bitmap_error}
use implso.Kernel.Bitmap.Single.{bit}
use implso.Filesys.FreeMap.{MapFile}
use implso.Vm.Evict.{
  Paging, page_of, put_back, unload, swapped_to, swap_with, to_swap, write_back, after_write,
  evict_page, evict_entry, read_into, reclaim, swap_reclaim_page,
}
use implso.Vm.Pages.{PageSource, SupPage, zero_page, swapped, file_backed}
use implso.Vm.Swap.{Frame, Swap, read_from_block}
use implso.Vm.Swap.Slots.{
  IsSwap, SwappedOut, full, stored_at, swap_out_lem, usable_slot, read_loop_lem, page,
}

-- swap_reclaim_page of the page of an entry into any frame does not panic, and reads what the frame of
-- the entry held before.
abbrev pub Reclaims : (fte : ℕ) (before after : Paging) → Type 0
Reclaims fte s s' =
    (fte' : ℕ)
    → fte' ≢ 0
    → Returns
        (λ r.
          (r.0 ≡ true)
          × ((o : ℕ)
              → o < 4096
              → r.1.memory (s'.frames.entries fte').frame o
                ≡ s.memory (s.frames.entries fte).frame o))
        (swap_reclaim_page (s.frames.entries fte).aux fte' s')

-- The entry's page has no frame any more.
pub record IsUnloaded (fte : ℕ) (s s' : Paging) : Type 0 where
  pub unloaded : (page_of s' fte).is_loaded ≡ false
  pub cleared : s'.mapped (s.frames.entries fte).owner (page_of s fte).user_vaddr ≡ false

pub data EvictResult (b : Bitmap) (fte : ℕ) (s : Paging) : Option ℕ × Paging → Type 0 where
  kept : ((j : ℕ) → j < b.bit_cnt → bit b j ≢ false) → EvictResult b fte s (none, put_back fte s)
  dropped :
      (s' : Paging)
      → (page_of s fte).source ≡ file_backed
      → (page_of s fte).writable ≡ false
      → (page_of s' fte).source ≡ file_backed
      → IsUnloaded fte s s'
      → EvictResult b fte s (some (s.frames.entries fte).frame, s')
  moved :
      (s' : Paging)
      → IsUnloaded fte s s'
      → Reclaims fte s s'
      → EvictResult b fte s (some (s.frames.entries fte).frame, s')

unload-IsUnloaded :
    (fte : ℕ) (source : PageSource) (index : ℕ) (s : Paging)
    → IsUnloaded fte s (unload fte source index s)
unfolding unload
unload-IsUnloaded fte source index s = record {
  unloaded = rw (==_self (s.frames.entries fte).aux) refl;
  cleared = rw (==_self (s.frames.entries fte).owner, ==_self (page_of s fte).user_vaddr) refl;
}

reclaim_lem :
    (p : SupPage) (frame : ℕ) (bytes : Frame) (s : Paging) (b : Bitmap)
    → p.is_loaded ≡ false
    → p.source ≡ swapped
    → IsSwap b s.swap
    → p.swap_slot_index < b.bit_cnt
    → ((o : ℕ) → o < 4096 → page s.swap.block p.swap_slot_index o ≡ bytes o)
    → Returns
        (λ r. (r.0 ≡ true) × ((o : ℕ) → o < 4096 → r.1.memory frame o ≡ bytes o))
        (reclaim p frame s)
unfolding reclaim read_into read_from_block
reclaim_lem p frame bytes s b l q v lt filled =
    rw (l, q, usable_slot b s.swap p.swap_slot_index v lt)
      (Run.bind
        (read_loop_lem 8 0 s.swap.block (s.memory frame) p.swap_slot_index b.bit_cnt v.slots lt
          (omega arith))
        (λ f h. returns (
          refl,
          λ o small.
              ap (λ (g : Frame). g o) (held frame f s.memory)
              ∙ (h o small ∙ (ground arith ∙ filled o small)),
        )))
  where
    held : (frame : ℕ) (f : Frame) (m : ℕ → Frame) → (if frame == frame then f else m frame) ≡ f
    held frame f m = rw (==_self frame) refl

reclaims :
    (fte index : ℕ) (s : Paging) (b' : Bitmap) (sw' : Swap)
    → (s.frames.entries fte).aux ≢ 0
    → IsSwap b' sw'
    → index < b'.bit_cnt
    → ((o : ℕ) → o < 4096 → page sw'.block index o ≡ s.memory (s.frames.entries fte).frame o)
    → Reclaims fte s (unload fte swapped index (record s { swap = sw' }))
unfolding swap_reclaim_page unload
reclaims fte index s b' sw' ne v lt filled fte' ne' =
    let aux = (s.frames.entries fte).aux in
    let z : (aux == 0) ≡ false = ground (arith, ne) in
    let y : (fte' == 0) ≡ false = ground (arith, ne') in
    rw (z, y, ==_self aux)
      (reclaim_lem _ (s.frames.entries fte').frame (s.memory (s.frames.entries fte).frame) _ b' refl
        refl v lt filled)

swapped_to_lem :
    (fte : ℕ) (s : Paging) (b : Bitmap) (r : Option ℕ × Swap)
    → (s.frames.entries fte).aux ≢ 0
    → IsSwap b s.swap
    → SwappedOut (s.memory (s.frames.entries fte).frame) b s.swap r
    → EvictResult b fte s (swapped_to fte r.0 (record s { swap = r.1 }))
unfolding swapped_to
swapped_to_lem fte s b r ne v (full none_free) = kept none_free
swapped_to_lem fte s b r ne v (stored_at index b' sw' lt was becomes v' filled others) =
    moved (unload fte swapped index (record s { swap = sw' }))
      (record {
        unloaded = (unload-IsUnloaded fte swapped index (record s { swap = sw' })).unloaded;
        cleared = (unload-IsUnloaded fte swapped index (record s { swap = sw' })).cleared;
      })
      (reclaims fte index s b' sw' ne v' (omega (arith, lt, becomes.sized)) filled)

swap_with_lem :
    (o : Option Bitmap) (fte : ℕ) (s : Paging) (b : Bitmap)
    → o ≡ some b
    → (s.frames.entries fte).aux ≢ 0
    → IsSwap b s.swap
    → Returns (EvictResult b fte s) (swap_with o fte s)
unfolding swap_with
swap_with_lem o fte s b mounted ne v = rw mounted (
    Run.bind (swap_out_lem (s.memory (s.frames.entries fte).frame) b s.swap v)
      (λ r out. returns (swapped_to_lem fte s b r ne v out)))

to_swap_lem :
    (fte : ℕ) (s : Paging) (b : Bitmap)
    → (s.frames.entries fte).aux ≢ 0
    → IsSwap b s.swap
    → Returns (EvictResult b fte s) (to_swap fte s)
unfolding to_swap
to_swap_lem fte s b ne v = swap_with_lem s.swap.slots fte s b v.mounted ne v

reads_file :
    (fte : ℕ) (s : Paging)
    → (page_of (unload fte file_backed bitmap_error s) fte).source ≡ file_backed
unfolding unload
reads_file fte s = rw (==_self (s.frames.entries fte).aux) refl

-- A page of a file that is not in a mapping goes to a slot if it may be written, and is dropped
-- otherwise.
file_lem :
    (disk : MapFile) (fte : ℕ) (s : Paging) (b : Bitmap)
    → (s.frames.entries fte).aux ≢ 0
    → IsSwap b s.swap
    → (page_of s fte).mapping ≡ 0
    → (page_of s fte).source ≡ file_backed
    → Returns (EvictResult b fte s) (evict_page disk file_backed fte s)
unfolding evict_page write_back after_write
file_lem disk fte s b ne v m q = rw m (elim (Bool-cases (page_of s fte).writable) [
  | inl w ↦ rw (m, w) (to_swap_lem fte s b ne v)
  | inr w ↦
      rw (m, w)
        (returns (
          dropped (unload fte file_backed bitmap_error s) q w (reads_file fte s)
            (unload-IsUnloaded fte file_backed bitmap_error s)))
])

evict_page_lem :
    (disk : MapFile) (source : PageSource) (fte : ℕ) (s : Paging) (b : Bitmap)
    → (s.frames.entries fte).aux ≢ 0
    → IsSwap b s.swap
    → (page_of s fte).mapping ≡ 0
    → (page_of s fte).source ≡ source
    → Returns (EvictResult b fte s) (evict_page disk source fte s)
unfolding evict_page
evict_page_lem disk zero_page fte s b ne v m q = to_swap_lem fte s b ne v
evict_page_lem disk swapped fte s b ne v m q = to_swap_lem fte s b ne v
evict_page_lem disk file_backed fte s b ne v m q = file_lem disk fte s b ne v m q

-- On a swap device with a valid bitmap, swap_evict_frame does not panic behind the choice of an
-- entry whose page is not in a mapping and whose owner has a page directory. Either no slot is
-- free, and the entry is back in the frame table; or the page is one of a file and not writable,
-- and has no frame any more; or the frame is returned, the page is neither loaded nor in the page
-- directory, and swap_reclaim_page of it into any frame reads what the frame held.
pub evict_entry-swap_reclaim_page :
    (disk : MapFile) (fte : ℕ) (s : Paging) (b : Bitmap)
    → (s.frames.entries fte).aux ≢ 0
    → (s.frames.entries fte).owner ≢ 0
    → s.frames.has_pagedir (s.frames.entries fte).owner ≡ true
    → (page_of s fte).mapping ≡ 0
    → IsSwap b s.swap
    → Returns (EvictResult b fte s) (evict_entry disk fte s)
unfolding evict_entry
evict_entry-swap_reclaim_page disk fte s b ne own dir m v =
    let z : ((s.frames.entries fte).aux == 0) ≡ false = ground (arith, ne) in
    let y : ((s.frames.entries fte).owner == 0) ≡ false = ground (arith, own) in
    rw (z, y, dir) (evict_page_lem disk (page_of s fte).source fte s b ne v m refl)
