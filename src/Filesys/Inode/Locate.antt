-- ===== src/Filesys/Inode/Locate.antt =====
-- byte_to_sector in filesys/inode.c and the layout of a file.
use implso.Prelude.{
  ℕ, ◌-◌, ◌/◌, ◌%◌, ◌≤◌, ◌<◌, ◌≡◌, refl, true, false, arith, ltb, leb, Bool-cases, inl, inr,
}
use implso.Prelude.Run.{ok}
use implso.Devices.Block.{Block, read-ok}
use implso.Filesys.Inode.{
  InodeDisk, State, direct_blocks, ptrs_per_sector, bytes_to_sectors, no_sector, byte_to_sector,
}
use implso.Filesys.Inode.Slots.{
  data_sector, indirect_block, doubly_block, inner_block, place, live, live-IsClosed, max_sectors,
  indirect_end, IsLaidOut,
}

module _ (st : State) (layout : IsLaidOut (bytes_to_sectors st.inode.length) st)
    (fits : bytes_to_sectors st.inode.length ≤ max_sectors) where
  -- For a file that is laid out, byte_to_sector of a position below its length does not panic and
  -- gives the sector in which the layout has that position.
  pub byte_to_sector_lem :
      (pos : ℕ)
      → pos < st.inode.length
      → byte_to_sector st.dev st.inode pos ≡ ok (place st.inode st.dev (data_sector (pos / 512)))
  unfolding byte_to_sector
  byte_to_sector_lem pos lt =
      let i = pos / 512 in
      let n = bytes_to_sectors st.inode.length in
      let inside_file : leb st.inode.length pos ≡ false = ground arith in
      let is_live : live n (data_sector i) ≡ true = ground arith in
      elim (Bool-cases (ltb i direct_blocks)) [
        | inl direct ↦ rw (inside_file, direct) refl
        | inr beyond ↦ elim (Bool-cases (ltb i indirect_end)) [
          | inl single ↦
              let low : ltb (i - direct_blocks) ptrs_per_sector ≡ true = ground arith in
              let there =
                layout.within indirect_block
                  ((live-IsClosed n).needs_indirect i is_live (ground arith) (ground arith)) in
              rw (inside_file, beyond, single, low, read-ok st.dev st.inode.indirect there) refl
          | inr double ↦
              let high : ltb (i - direct_blocks) ptrs_per_sector ≡ false = ground arith in
              let off : i - direct_blocks - ptrs_per_sector ≡ i - indirect_end = omega arith in
              let inner_live = (live-IsClosed n).needs_inner i is_live (ground arith) in
              let outer_there =
                layout.within doubly_block ((live-IsClosed n).needs_doubly _ inner_live) in
              let inner_there =
                layout.within (inner_block ((i - indirect_end) / ptrs_per_sector)) inner_live in
              let outer_ok : ltb ((i - indirect_end) / ptrs_per_sector) ptrs_per_sector ≡ true =
                ground arith in
              let inner_ok : ltb ((i - indirect_end) % ptrs_per_sector) ptrs_per_sector ≡ true =
                ground arith in
              rw
                (
                  inside_file,
                  beyond,
                  double,
                  high,
                  off,
                  read-ok st.dev st.inode.doubly_indirect outer_there,
                  outer_ok,
                  read-ok st.dev _ inner_there,
                  inner_ok,
                )
                refl
        ]
      ]

-- Behind the end of the file byte_to_sector gives -1.
pub byte_to_sector_past :
    (dev : Block) (d : InodeDisk) (pos : ℕ)
    → d.length ≤ pos
    → byte_to_sector dev d pos ≡ ok no_sector
unfolding byte_to_sector
byte_to_sector_past dev d pos h = let past : leb d.length pos ≡ true = ground arith in rw past refl
