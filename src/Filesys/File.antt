-- ===== src/Filesys/File.antt =====
-- filesys/file.c: open files, each a position in an inode.
use implso.Prelude.{ℕ, ◌+◌, Bool, true, false, Option, none, some, if◌then◌else◌}
use implso.Prelude.Run.{Run, ok, ◌>>=◌}
use implso.Filesys.FreeMap.{MapFile}
use implso.Filesys.Opened
use implso.Filesys.Opened.{Fs, malloc}

-- `inode` is the address of the inode.
pub record File : Type 0 where
  pub inode : ℕ
  pub pos : ℕ
  pub deny_write : Bool

unfoldable pub get_inode : File → ℕ
get_inode file = file.inode

unfoldable pub read : File → (buffer : ℕ → ℕ) (size : ℕ) → Fs → Run ((ℕ × (ℕ → ℕ)) × (File × Fs))
read file buffer size fs = do
  (r, fs') ← Opened.read_at file.inode buffer size file.pos fs
  ok (r, (record file { pos = file.pos + r.0 }, fs'))

unfoldable pub read_at : File → (buffer : ℕ → ℕ) (size file_ofs : ℕ) → Fs → Run ((ℕ × (ℕ → ℕ)) × Fs)
read_at file buffer size file_ofs fs = Opened.read_at file.inode buffer size file_ofs fs

unfoldable pub deny_write : File → Fs → Run (File × Fs)
deny_write file fs =
    if file.deny_write
    then ok (file, fs)
    else (do fs' ← Opened.deny_write file.inode fs; ok (record file { deny_write = true }, fs'))

unfoldable pub allow_write : File → Fs → Run (File × Fs)
allow_write file fs =
    if file.deny_write
    then (do fs' ← Opened.allow_write file.inode fs; ok (record file { deny_write = false }, fs'))
    else ok (file, fs)

unfoldable pub length_of : File → Fs → ℕ
length_of file fs = Opened.length_of file.inode fs

-- A position is not negative here.
unfoldable pub seek : File → (new_pos : ℕ) → File
seek file new_pos = record file { pos = new_pos }

unfoldable pub tell : File → ℕ
tell file = file.pos

module _ (disk : MapFile) where
  -- The two cases of file_open: an inode and the memory for the file, or not both.
  unfoldable pub open_with : (block inode : Option ℕ) → Fs → Run (Option File × Fs)
  open_with (some _) (some a) fs = ok (some (record { inode = a; pos = 0; deny_write = false }), fs)
  open_with none (some a) fs = do fs' ← Opened.close disk (some a) fs; ok (none, fs')
  open_with block none fs = do fs' ← Opened.close disk none fs; ok (none, fs')

  -- file_open
  unfoldable pub open_file : (inode : Option ℕ) → Fs → Run (Option File × Fs)
  open_file inode fs = do let (block, fs1) = malloc fs; open_with block inode fs1

  unfoldable pub reopen : File → Fs → Run (Option File × Fs)
  reopen file fs = open_file (some file.inode) (Opened.reopen file.inode fs)

  -- file_close
  unfoldable pub close_file : File → Fs → Run Fs
  close_file file fs = do
    (file', fs1) ← allow_write file fs
    Opened.close disk (some file'.inode) fs1

  unfoldable pub close : Option File → Fs → Run Fs
  close none fs = ok fs
  close (some file) fs = close_file file fs

  unfoldable pub write : File → (buffer : ℕ → ℕ) (size : ℕ) → Fs → Run (ℕ × (File × Fs))
  write file buffer size fs = do
    (written, fs') ← Opened.write_at disk file.inode buffer size file.pos fs
    ok (written, (record file { pos = file.pos + written }, fs'))

  unfoldable pub write_at : File → (buffer : ℕ → ℕ) (size file_ofs : ℕ) → Fs → Run (ℕ × Fs)
  write_at file buffer size file_ofs fs = Opened.write_at disk file.inode buffer size file_ofs fs
