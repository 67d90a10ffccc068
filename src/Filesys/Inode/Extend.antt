-- ===== src/Filesys/Inode/Extend.antt =====
-- inode_extend of filesys/inode.c: it makes an inode longer, a sector at a time.
pub mod Direct
pub mod Doubly
pub mod Enter
pub mod Grow
pub mod Hold
pub mod Indirect
pub mod Inner
pub mod Loop
pub mod Take
pub mod Whole
use implso.Prelude.{
  ℕ, zero, suc, ◌+◌, ◌-◌, ◌/◌, ◌%◌, Bool, true, false, Option, none, some, ltb, leb, ◌==◌,
  if◌then◌else◌,
}
use implso.Prelude.Run.{Run, ok, ◌>>=◌, ◌>>◌, assert}
use implso.Devices.Block
use implso.Devices.Block.{Sector, zeros, get_word, put_word}
use implso.Filesys.FreeMap
use implso.Filesys.FreeMap.{MapFile}
use implso.Filesys.Inode.{
  State, InodeDisk, direct_blocks, ptrs_per_sector, bytes_to_sectors, entry, update,
}

-- `buffer[idx] = value` in an array of PTRS_PER_SECTOR words.
abbrev pub put_entry : Sector → ℕ → ℕ → Run Sector
put_entry buffer idx value = assert (ltb idx ptrs_per_sector) >> ok (put_word buffer idx value)

unfoldable pub store_direct : (i sector : ℕ) → State → Run (Bool × State)
store_direct i sector st =
    ok (true, record st { inode = record st.inode { direct = update st.inode.direct i sector } })

unfoldable pub put_indirect : (sector ind_idx : ℕ) → State → Run (Bool × State)
put_indirect sector ind_idx st = do
  buf ← Block.read st.dev st.inode.indirect
  buf' ← put_entry buf ind_idx sector
  dev' ← Block.write st.dev st.inode.indirect buf'
  ok (true, record st { dev = dev' })

unfoldable pub put_inner :
    (sector outer_idx inner_idx : ℕ) (outer : Sector) → State → Run (Bool × State)
put_inner sector outer_idx inner_idx outer st = do
  inner_sector ← entry outer outer_idx
  inner ← Block.read st.dev inner_sector
  inner' ← put_entry inner inner_idx sector
  dev' ← Block.write st.dev inner_sector inner'
  ok (true, record st { dev = dev' })

-- `disk_inode->length = new_length; return true;`, or the early `return false`.
unfoldable pub set_length : (new_length : ℕ) → Bool × State → Bool × State
set_length new_length (true, st) =
    (true, record st { inode = record st.inode { length = new_length } })
set_length new_length (false, st) = (false, st)

module _ (disk : MapFile) where
  zeroed : Option ℕ → State → Run (Option ℕ × State)
  zeroed none st = ok (none, st)
  zeroed (some sector) st = do
    dev' ← Block.write st.dev sector zeros
    ok (some sector, record st { dev = dev' })

  -- free_map_allocate of one sector and, where that succeeds, the write of zeros to it.
  unfoldable pub take_sector : State → Run (Option ℕ × State)
  unfolding zeroed
  take_sector st = do
    (sector, free') ← FreeMap.allocate disk 1 st.free
    zeroed sector (record st { free = free' })

  -- `free_map_release (sector, 1); return false;`
  unfoldable pub give_back : (sector : ℕ) → State → Run (Bool × State)
  give_back sector st = do
    free' ← FreeMap.release disk sector 1 st.free
    ok (false, record st { free = free' })

  unfoldable pub set_indirect : (sector : ℕ) → Option ℕ → State → Run (Bool × State)
  set_indirect sector none st = give_back sector st
  set_indirect sector (some block) st =
      ok (true, record st { inode = record st.inode { indirect = block } })

  unfoldable pub ensure_indirect : (sector ind_idx : ℕ) → State → Run (Bool × State)
  ensure_indirect sector ind_idx st =
      if ind_idx == 0
      then (do (block, st1) ← take_sector st; set_indirect sector block st1)
      else ok (true, st)

  unfoldable pub store_indirect : (sector ind_idx : ℕ) → State → Run (Bool × State)
  store_indirect sector ind_idx st = do
    (made, st1) ← ensure_indirect sector ind_idx st
    if made then put_indirect sector ind_idx st1 else ok (false, st1)

  unfoldable pub set_doubly : (sector : ℕ) → Option ℕ → State → Run (Bool × State)
  set_doubly sector none st = give_back sector st
  set_doubly sector (some block) st =
      ok (true, record st { inode = record st.inode { doubly_indirect = block } })

  unfoldable pub ensure_doubly : (sector di_off : ℕ) → State → Run (Bool × State)
  ensure_doubly sector di_off st =
      if di_off == 0
      then (do (block, st1) ← take_sector st; set_doubly sector block st1)
      else ok (true, st)

  -- The new block of the second level, entered in the array `outer`, and what follows.
  unfoldable pub set_inner :
      (sector outer_idx inner_idx : ℕ) (outer : Sector) → Option ℕ → State → Run (Bool × State)
  set_inner sector outer_idx inner_idx outer none st = give_back sector st
  set_inner sector outer_idx inner_idx outer (some new_ind) st = do
    outer' ← put_entry outer outer_idx new_ind
    dev' ← Block.write st.dev st.inode.doubly_indirect outer'
    put_inner sector outer_idx inner_idx outer' (record st { dev = dev' })

  -- The part of the doubly indirect case behind its first allocation.
  unfoldable pub store_inner : (sector outer_idx inner_idx : ℕ) → State → Run (Bool × State)
  store_inner sector outer_idx inner_idx st = do
    outer ← Block.read st.dev st.inode.doubly_indirect
    if inner_idx == 0
        then (do
          (block, st1) ← take_sector st
          set_inner sector outer_idx inner_idx outer block st1)
        else put_inner sector outer_idx inner_idx outer st

  unfoldable pub store_doubly : (sector di_off : ℕ) → State → Run (Bool × State)
  store_doubly sector di_off st = do
    (made, st1) ← ensure_doubly sector di_off st
    if made
        then store_inner sector (di_off / ptrs_per_sector) (di_off % ptrs_per_sector) st1
        else ok (false, st1)

  -- The three cases on the index of the new data sector.
  unfoldable pub store_sector : (i sector : ℕ) → State → Run (Bool × State)
  store_sector i sector st =
      if ltb i direct_blocks
      then store_direct i sector st
      else if ltb i (direct_blocks + ptrs_per_sector)
      then store_indirect sector (i - direct_blocks) st
      else store_doubly sector (i - direct_blocks - ptrs_per_sector) st

  unfoldable pub add_sector : (i : ℕ) → Option ℕ → State → Run (Bool × State)
  add_sector i none st = ok (false, st)
  add_sector i (some sector) st = store_sector i sector st

  -- `for (i = old_sectors; i < new_sectors; i++)`, by the rounds that are left.
  unfoldable pub extend_loop : (rounds i : ℕ) → State → Run (Bool × State)
  extend_loop zero i st = ok (true, st)
  extend_loop (suc n) i st = do
    (sector, st1) ← take_sector st
    (added, st2) ← add_sector i sector st1
    if added then extend_loop n (i + 1) st2 else ok (false, st2)

  unfoldable pub extend : (new_length : ℕ) → State → Run (Bool × State)
  extend new_length st =
      let old_sectors = bytes_to_sectors st.inode.length in
      let new_sectors = bytes_to_sectors new_length in
      if leb new_sectors old_sectors then ok (set_length new_length (true, st)) else (do
        result ← extend_loop (new_sectors - old_sectors) old_sectors st
        ok (set_length new_length result))
