-- ===== src/Filesys/Inode/Deallocate.antt =====
-- filesys/inode.c: inode_deallocate, which releases the sectors and the index blocks of an inode.
use implso.Prelude.{ℕ, zero, suc, ◌+◌, ◌-◌, ◌/◌, ltb, leb, ◌==◌, if◌then◌else◌}
use implso.Prelude.Run.{Run, ok, ◌>>=◌}
use implso.Devices.Block
use implso.Devices.Block.{Block, Sector, get_word}
use implso.Filesys.FreeMap
use implso.Filesys.FreeMap.{MapFile, FreeMap}
use implso.Filesys.Inode.{InodeDisk, direct_blocks, ptrs_per_sector, bytes_to_sectors, entry}

module _ (disk : MapFile) where
  -- free_map_release of the sectors of an array from index `i` on, `rest` in number.
  unfoldable pub release_loop : (sectors : ℕ → ℕ) (rest i : ℕ) → FreeMap → Run FreeMap
  release_loop sectors zero i fm = ok fm
  release_loop sectors (suc rest) i fm = do
    fm' ← FreeMap.release disk (sectors i) 1 fm
    release_loop sectors rest (i + 1) fm'

  unfoldable pub release_direct : InodeDisk → (sectors : ℕ) → FreeMap → Run FreeMap
  release_direct d sectors fm =
      release_loop d.direct (if ltb sectors direct_blocks then sectors else direct_blocks) 0 fm

  unfoldable pub release_indirect : Block → InodeDisk → (sectors : ℕ) → FreeMap → Run FreeMap
  release_indirect dev d sectors fm = do
    buf ← Block.read dev d.indirect
    let left = sectors - direct_blocks
    let ind_cnt = if ltb ptrs_per_sector left then ptrs_per_sector else left
    fm1 ← release_loop (get_word buf) ind_cnt 0 fm
    FreeMap.release disk d.indirect 1 fm1

  -- The blocks of the second level from `outer[i]` on, `rest` in number.
  unfoldable pub outer_loop :
      Block → (outer : Sector) (rest i remaining : ℕ) → FreeMap → Run FreeMap
  outer_loop dev outer zero i remaining fm = ok fm
  outer_loop dev outer (suc rest) i remaining fm = do
    inner_sector ← entry outer i
    inner ← Block.read dev inner_sector
    let inner_cnt = if ltb remaining ptrs_per_sector then remaining else ptrs_per_sector
    fm1 ← release_loop (get_word inner) inner_cnt 0 fm
    fm2 ← FreeMap.release disk inner_sector 1 fm1
    outer_loop dev outer rest (i + 1) (remaining - inner_cnt) fm2

  unfoldable pub release_doubly : Block → InodeDisk → (sectors : ℕ) → FreeMap → Run FreeMap
  release_doubly dev d sectors fm = do
    outer ← Block.read dev d.doubly_indirect
    let remaining = sectors - direct_blocks - ptrs_per_sector
    let outer_cnt = (remaining + ptrs_per_sector - 1) / ptrs_per_sector
    fm1 ← outer_loop dev outer outer_cnt 0 remaining fm
    FreeMap.release disk d.doubly_indirect 1 fm1

  unfoldable pub deallocate : Block → InodeDisk → FreeMap → Run FreeMap
  deallocate dev d fm =
      let sectors = bytes_to_sectors d.length in
      if sectors == 0 then ok fm else (do
        fm1 ← release_direct d sectors fm
        if leb sectors direct_blocks then ok fm1 else (do
          fm2 ← release_indirect dev d sectors fm1
          if leb sectors (direct_blocks + ptrs_per_sector)
              then ok fm2
              else release_doubly dev d sectors fm2))
