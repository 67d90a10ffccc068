-- ===== src/Filesys/Inode/Access.antt =====
-- filesys/inode.c: inode_read_at and inode_write_at, a sector at a time. A buffer is the byte at each
-- offset. `bounce` says whether malloc gives the bounce buffer.
use implso.Prelude.{
  ℕ, zero, suc, ◌+◌, ◌-◌, ◌%◌, Bool, true, false, not, ◌&&◌, ◌||◌, ltb, leb, ◌==◌, if◌then◌else◌,
}
use implso.Prelude.Run.{Run, ok, panic, ◌>>=◌}
use implso.Devices.Block
use implso.Devices.Block.{Block, Sector, zeros, block_sector_size}
use implso.Filesys.FreeMap.{MapFile}
use implso.Filesys.Inode.{InodeDisk, State, byte_to_sector, to_sector}
use implso.Filesys.Inode.Extend

-- memcpy of `cnt` bytes from offset `from` of `source` to offset `at` of `target`.
abbrev pub copy : (target : ℕ → ℕ) (at : ℕ) (source : ℕ → ℕ) (from cnt : ℕ) → ℕ → ℕ
copy target at source from cnt i =
    if leb at i && ltb i (at + cnt) then source (from + (i - at)) else target i

abbrev pub lesser : ℕ → ℕ → ℕ
lesser a b = if ltb a b then a else b

-- `chunk_size`. Behind the end of the file it is at most 0 in C, and 0 here.
unfoldable pub chunk_size : InodeDisk → (size offset : ℕ) → ℕ
chunk_size d size offset =
    let inode_left = d.length - offset in
    let sector_left = block_sector_size - offset % block_sector_size in
    lesser size (lesser inode_left sector_left)

unfoldable pub is_full_sector : (offset chunk : ℕ) → Bool
is_full_sector offset chunk = (offset % block_sector_size == 0) && (chunk == block_sector_size)

module _ (bounce : Bool) where
  -- The loop of inode_read_at; a round makes `size` smaller, so it is enough as fuel.
  unfoldable pub read_loop :
      (fuel : ℕ)
      → Block
      → InodeDisk
      → (size offset bytes_read : ℕ) (buffer : ℕ → ℕ) → Run (ℕ × (ℕ → ℕ))
  read_loop fuel dev d zero offset bytes_read buffer = ok (bytes_read, buffer)
  read_loop zero dev d (suc size) offset bytes_read buffer = panic
  read_loop (suc fuel) dev d (suc size) offset bytes_read buffer = do
    sector_idx ← byte_to_sector dev d offset
    let chunk = chunk_size d (suc size) offset
    elim ((chunk == 0) || (not bounce && not (is_full_sector offset chunk))) [
      | true ↦ ok (bytes_read, buffer)
      | false ↦ do
        stored ← Block.read dev sector_idx
        let buffer' = copy buffer bytes_read stored (offset % block_sector_size) chunk
        read_loop fuel dev d (suc size - chunk) (offset + chunk) (bytes_read + chunk) buffer'
    ]

  unfoldable pub read_at :
      Block → InodeDisk → (buffer : ℕ → ℕ) (size offset : ℕ) → Run (ℕ × (ℕ → ℕ))
  read_at dev d buffer size offset = read_loop size dev d size offset 0 buffer

  -- What is in the bounce buffer before the bytes of the caller: the sector, or zeros where all of it
  -- is written.
  unfoldable pub bounce_of : Block → (sector_idx sector_ofs chunk : ℕ) → Run Sector
  bounce_of dev sector_idx sector_ofs chunk =
      if ltb 0 sector_ofs || ltb chunk (block_sector_size - sector_ofs)
      then Block.read dev sector_idx
      else ok zeros

  unfoldable pub write_chunk :
      Block → (sector_idx offset chunk : ℕ) (buffer : ℕ → ℕ) (bytes_written : ℕ) → Run Block
  write_chunk dev sector_idx offset chunk buffer bytes_written =
      if is_full_sector offset chunk
      then Block.write dev sector_idx (λ i. buffer (bytes_written + i))
      else (do
        stored ← bounce_of dev sector_idx (offset % block_sector_size) chunk
        Block.write dev sector_idx
            (copy stored (offset % block_sector_size) buffer bytes_written chunk))

  unfoldable pub write_loop :
      (fuel : ℕ)
      → InodeDisk
      → (buffer : ℕ → ℕ) (size offset bytes_written : ℕ) → Block
      → Run (ℕ × Block)
  write_loop fuel d buffer zero offset bytes_written dev = ok (bytes_written, dev)
  write_loop zero d buffer (suc size) offset bytes_written dev = panic
  write_loop (suc fuel) d buffer (suc size) offset bytes_written dev = do
    sector_idx ← byte_to_sector dev d offset
    let chunk = chunk_size d (suc size) offset
    elim ((chunk == 0) || (not bounce && not (is_full_sector offset chunk))) [
      | true ↦ ok (bytes_written, dev)
      | false ↦ do
        dev' ← write_chunk dev sector_idx offset chunk buffer bytes_written
        write_loop fuel d buffer (suc size - chunk) (offset + chunk) (bytes_written + chunk) dev'
    ]

  unfoldable pub write_data : (buffer : ℕ → ℕ) (size offset : ℕ) → State → Run (ℕ × State)
  write_data buffer size offset st = do
    (bytes_written, dev') ← write_loop size st.inode buffer size offset 0 st.dev
    ok (bytes_written, record st { dev = dev' })

  -- The extension before the loop; false where it fails. `sector` is that of the inode.
  unfoldable pub grow : MapFile → (sector new_length : ℕ) → State → Run (Bool × State)
  grow disk sector new_length st =
      if ltb st.inode.length new_length
      then (do
        (extended, st1) ← Extend.extend disk new_length st
        if extended
            then (do
              dev' ← Block.write st1.dev sector (to_sector st1.inode)
              ok (true, record st1 { dev = dev' }))
            else ok (false, st1))
      else ok (true, st)

  unfoldable pub write_at :
      MapFile
      → (sector deny_write_cnt : ℕ) (buffer : ℕ → ℕ) (size offset : ℕ) → State
      → Run (ℕ × State)
  write_at disk sector deny_write_cnt buffer size offset st =
      if not (deny_write_cnt == 0) then ok (0, st) else (do
        (grown, st1) ← grow disk sector (offset + size) st
        if grown then write_data buffer size offset st1 else ok (0, st1))
