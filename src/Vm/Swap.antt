-- ===== src/Vm/Swap.antt =====
-- vm/swap.c: pages on the swap device. The lock around the bitmap of the slots is left out.
pub mod Slots
use implso.Prelude.{
  ℕ, zero, suc, ◌+◌, ◌*◌, ◌/◌, ◌%◌, Bool, true, false, not, ◌||◌, Option, none, some, ltb, leb,
  ◌==◌, if◌then◌else◌,
}
use implso.Prelude.Run.{Run, ok, ◌>>=◌}
use implso.Devices.Block.{Block, Sector, block_sector_size}
use implso.Devices.Block
use implso.Kernel.Bitmap.{Bitmap, bitmap_error, reset, scan_and_flip, size}

-- The bytes of a frame, at the offsets below 4096.
abbrev pub Frame : Type 0
Frame = ℕ → ℕ

-- The static variables; without a swap device there is no bitmap.
pub record Swap : Type 0 where
  pub block : Block
  pub slots : Option Bitmap

-- The loop of read_from_block, by the rounds that are left.
unfoldable pub read_loop : (rounds i : ℕ) → Block → Frame → (index : ℕ) → Run Frame
read_loop zero i block frame index = ok frame
read_loop (suc n) i block frame index = do
  sector ← Block.read block (index * 8 + i)
  let frame' : Frame =
      λ o. if o / block_sector_size == i then sector (o % block_sector_size) else frame o
  read_loop n (i + 1) block frame' index

unfoldable pub read_from_block : Block → Frame → (index : ℕ) → Run Frame
read_from_block block frame index = read_loop 8 0 block frame index

unfoldable pub write_loop : (rounds i : ℕ) → Block → Frame → (index : ℕ) → Run Block
write_loop zero i block frame index = ok block
write_loop (suc n) i block frame index = do
  block' ← Block.write block (index * 8 + i) (λ o. frame (i * block_sector_size + o))
  write_loop n (i + 1) block' frame index

unfoldable pub write_to_block : Block → Frame → (index : ℕ) → Run Block
write_to_block block frame index = write_loop 8 0 block frame index

-- The slots in use, where `index` is one of them that can be.
unfoldable pub slot_of : Option Bitmap → ℕ → Option Bitmap
slot_of none index = none
slot_of (some b) index = if (index == bitmap_error) || leb (size b) index then none else some b

unfoldable pub swap_free_slot : (index : ℕ) → Swap → Swap
swap_free_slot index sw = elim (slot_of sw.slots index) [
  | none ↦ sw
  | some b ↦ record sw { slots = some (reset b index) }
]

-- The frame is none where false is returned; `dst` is not null.
unfoldable pub swap_read_slot : (index : ℕ) → Frame → Swap → Run (Option Frame)
swap_read_slot index dst sw = elim (slot_of sw.slots index) [
  | none ↦ ok none
  | some b ↦ do frame ← read_from_block sw.block dst index; ok (some frame)
]

-- The end of swap_evict_frame for the first free slot: BITMAP_ERROR makes it give up.
abbrev pub fill_slot : Frame → Swap → ℕ × Bitmap → Run (Option ℕ × Swap)
fill_slot frame sw (index, b) = if index == bitmap_error then ok (none, sw) else (do
  block' ← write_to_block sw.block frame index
  ok (some index, record { block = block'; slots = some b }))

-- The part of swap_evict_frame that takes a slot and writes the frame to it, with its bitmap.
unfoldable pub swap_out : Frame → Bitmap → Swap → Run (Option ℕ × Swap)
swap_out frame b sw = do r ← scan_and_flip b 0 1 false; fill_slot frame sw r
