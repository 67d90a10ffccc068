-- ===== src/Filesys/Inode.antt =====
-- filesys/inode.c: inodes on disk, with direct, indirect and doubly indirect blocks. An offset or a
-- length (off_t) is a native number below 2 ^ 31. The words of an index block that lie outside the
-- array are undefined behaviour in C, and a panic here.
pub mod Access
pub mod Deallocate
pub mod Extend
pub mod Frames
pub mod Locate
pub mod Patch
pub mod Read
pub mod Slots
pub mod Write
use implso.Prelude.{
  ℕ, zero, suc, ◌+◌, ◌-◌, ◌*◌, ◌/◌, ◌%◌, ◌^◌, Bool, true, false, not, Option, none, some, ltb, leb,
  ◌==◌, if◌then◌else◌,
}
use implso.Prelude.Run.{Run, ok, ◌>>=◌, ◌>>◌, assert}
use implso.Devices.Block
use implso.Devices.Block.{Block, Sector, zeros, block_sector_size, get_word, put_word}
use implso.Filesys.FreeMap.{MapFile, FreeMap}
use implso.Filesys.FreeMap as FreeMap

abbrev pub inode_magic : ℕ
inode_magic = 0x494e4f44

abbrev pub direct_blocks : ℕ
direct_blocks = 123

abbrev pub ptrs_per_sector : ℕ
ptrs_per_sector = block_sector_size / 4

pub record InodeDisk : Type 0 where
  pub length : ℕ
  pub magic : ℕ
  pub direct : ℕ → ℕ
  pub indirect : ℕ
  pub doubly_indirect : ℕ
  pub is_dir : ℕ

abbrev pub bytes_to_sectors : ℕ → ℕ
bytes_to_sectors size = (size + block_sector_size - 1) / block_sector_size

-- The words of the structure, as it lies in its sector.
abbrev pub word_at : InodeDisk → ℕ → ℕ
word_at d i =
    if i == 0
    then d.length
    else if i == 1
    then d.magic
    else if ltb i (2 + direct_blocks)
    then d.direct (i - 2)
    else if i == 125
    then d.indirect
    else if i == 126
    then d.doubly_indirect
    else d.is_dir

unfoldable pub to_sector : InodeDisk → Sector
to_sector d o = Block.byte_of (word_at d (o / 4)) (o % 4)

unfoldable pub of_sector : Sector → InodeDisk
of_sector s = record {
  length = get_word s 0;
  magic = get_word s 1;
  direct = λ i. get_word s (2 + i);
  indirect = get_word s 125;
  doubly_indirect = get_word s 126;
  is_dir = get_word s 127;
}

-- `buffer[idx]` in an array of PTRS_PER_SECTOR words.
abbrev pub entry : Sector → ℕ → Run ℕ
entry buffer idx = assert (ltb idx ptrs_per_sector) >> ok (get_word buffer idx)

-- -1 as a sector number
abbrev pub no_sector : ℕ
no_sector = 2 ^ 32 - 1

unfoldable pub byte_to_sector : Block → InodeDisk → ℕ → Run ℕ
byte_to_sector dev d pos =
    let idx = pos / block_sector_size in
    if leb d.length pos
    then ok no_sector
    else if ltb idx direct_blocks
    then ok (d.direct idx)
    else (let idx' = idx - direct_blocks in
        if ltb idx' ptrs_per_sector
        then (do buffer ← Block.read dev d.indirect; entry buffer idx')
        else (let di_off = idx' - ptrs_per_sector in
            do
              outer ← Block.read dev d.doubly_indirect
              inner_sector ← entry outer (di_off / ptrs_per_sector)
              inner ← Block.read dev inner_sector
              entry inner (di_off % ptrs_per_sector)))

-- What the operations on a disk inode change: the inode, the free map and the device.
pub record State : Type 0 where
  pub inode : InodeDisk
  pub free : FreeMap
  pub dev : Block

abbrev pub update : (ℕ → ℕ) → ℕ → ℕ → ℕ → ℕ
update f i v j = if i == j then v else f j
