-- ===== src/Filesys/FreeMap.antt =====
-- filesys/free-map.c: the map of free sectors, kept in memory and in a file.
pub mod Allocate
use implso.Prelude.{
  ℕ, ◌*◌, ◌^◌, ◌≡◌, length, Bool, true, false, not, ◌&&◌, Option, none, some, List, ◌++◌, ltb, ◌==◌,
  if◌then◌else◌,
}
use implso.Prelude.Run.{Run, ok, panic, ◌>>=◌, ◌>>◌, assert}
use implso.Kernel.Bitmap.{
  Bitmap, bitmap_error, byte_cnt, mark, set_multiple, scan_and_flip, all, size,
}
use implso.Kernel.Bitmap.Storage

abbrev pub free_map_sector : ℕ
free_map_sector = 0

abbrev pub root_dir_sector : ℕ
root_dir_sector = 1

-- What the free map uses of filesys/file.c: from the contents of the file and the words of a buffer,
-- file_write_at at offset 0 gives the bytes written and the new contents, and file_read_at the words of
-- the buffer and the bytes read. A write that says that it has written all bytes of the buffer leaves
-- the buffer at the beginning of the file; of a shorter write nothing is known.
pub record MapFile : Type 0 where
  pub write_at : (contents buffer : List ℕ) → ℕ × List ℕ
  pub read_at : (contents buffer : List ℕ) → ℕ × List ℕ
  pub written :
      (contents buffer : List ℕ)
      → (write_at contents buffer).0 ≡ 4 * length buffer
      → (rest : List ℕ) × ((write_at contents buffer).1 ≡ buffer ++ rest)

-- The two static variables. The file is `none` until it is open, and is then known by its contents,
-- the words of the sectors of the device that are its own: these sectors are part of `file` here, and
-- what the device has there is not looked at. They are marked in the map from
-- free_map_create on, and belong to no other file.
pub record FreeMap : Type 0 where
  pub map : Bitmap
  pub file : Option (List ℕ)

-- `node` and `block` are what malloc does in bitmap_create.
unfoldable pub init : (node : Bool) (block : Option (List ℕ)) (block_size : ℕ) → Run FreeMap
init node block block_size = do
  made ← Storage.create node block block_size
  elim made [
    | none ↦ panic
    | some b ↦ ok (record { map = mark (mark b free_map_sector) root_dir_sector; file = none })
  ]

module _ (disk : MapFile) where
  -- bitmap_write to the open file: the success and the new contents.
  unfoldable pub write_map : Bitmap → List ℕ → Bool × List ℕ
  write_map b contents =
      let (count, contents') = disk.write_at contents b.bits in (Storage.write count b, contents')

  -- `free_map_file != NULL && !bitmap_write (free_map, free_map_file)`, with the file's contents
  -- after it; the first component says whether the write failed.
  unfoldable pub write_fails : Bitmap → Option (List ℕ) → Bool × Option (List ℕ)
  unfolding write_map
  write_fails b none = (false, none)
  write_fails b (some contents) =
      let (success, contents') = write_map b contents in (not success, some contents')

  -- The sector is none where free_map_allocate returns false.
  unfoldable pub allocate : ℕ → FreeMap → Run (Option ℕ × FreeMap)
  unfolding write_fails
  allocate cnt fm = do
    (sector, b) ← scan_and_flip fm.map 0 cnt false
    if sector == bitmap_error then ok (none, fm) else (do
      let (failed, file') = write_fails b fm.file
      if failed
          then (do
            b' ← set_multiple b sector cnt false
            ok (none, record { map = b'; file = file' }))
          else ok (some sector, record { map = b; file = file' }))

  -- file_write_at of a null pointer: the kernel faults.
  unfoldable pub release : (sector cnt : ℕ) → FreeMap → Run FreeMap
  unfolding write_map
  release sector cnt fm = do
    used ← all fm.map sector cnt
    assert used
    b ← set_multiple fm.map sector cnt false
    elim fm.file [
      | none ↦ panic
      | some contents ↦ ok (record { map = b; file = some (write_map b contents).1 })
    ]

  -- `contents` is the file on disk, none where it cannot be opened.
  unfoldable pub open_file : Option (List ℕ) → FreeMap → Run FreeMap
  open_file none fm = panic
  open_file (some contents) fm = do
    let (count, words) = disk.read_at contents fm.map.bits
    let (success, b) = Storage.read words count fm.map
    assert success
    ok (record { map = b; file = some contents })
