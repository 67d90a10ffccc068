-- ===== src/Filesys/Directory.antt =====
-- filesys/directory.c: directories, each an inode whose bytes are entries. A name is the sequence of
-- its characters, without the null byte. `fuel` bounds the entries that a loop looks at.
use implso.Prelude.{
  ℕ, zero, suc, ◌+◌, Bool, true, false, not, ◌&&◌, ◌||◌, List, [], ◌∷◌, Option, none, some, ltb,
  ◌==◌, if◌then◌else◌, length,
}
use implso.Prelude.Run.{Run, ok, panic, ◌>>=◌}
use implso.Devices.Block.{get_word, put_word}
use implso.Filesys.FreeMap.{MapFile, root_dir_sector}
use implso.Filesys.Opened
use implso.Filesys.Opened.{Fs, malloc}

-- `inode` is the address of the inode.
pub record Dir : Type 0 where
  pub inode : ℕ
  pub pos : ℕ

abbrev pub name_max : ℕ
name_max = 14

-- `struct dir_entry`: the sector in four bytes, the name in `name_max + 1`, and `in_use` in one.
abbrev pub entry_size : ℕ
entry_size = 20

-- The bytes of an entry.
abbrev pub Entry : Type 0
Entry = ℕ → ℕ

abbrev pub inode_sector : Entry → ℕ
inode_sector e = get_word e 0

abbrev pub in_use : Entry → Bool
in_use e = not (e 19 == 0)

-- The characters up to a null byte among the next `rest` bytes from `i` on.
unfoldable pub chars : (rest i : ℕ) → Entry → List ℕ
chars zero i e = []
chars (suc rest) i e = let later = chars rest (i + 1) e in if e i == 0 then [] else e i ∷ later

abbrev pub name_of : Entry → List ℕ
name_of e = chars (name_max + 1) 4 e

-- strlcpy of a name that fits to the bytes from `i` on.
unfoldable pub put_chars : List ℕ → (i : ℕ) → Entry → Entry
put_chars [] i e = λ o. if o == i then 0 else e o
put_chars (c ∷ name) i e = let e' = put_chars name (i + 1) e in λ o. if o == i then c else e' o

abbrev pub set_in_use : Bool → Entry → Entry
set_in_use used e o = if o == 19 then (if used then 1 else 0) else e o

-- strcmp of two names, as a test.
unfoldable pub same_name : List ℕ → List ℕ → Bool
same_name [] [] = true
same_name [] (d ∷ ds) = false
same_name (c ∷ cs) [] = false
same_name (c ∷ cs) (d ∷ ds) = let rest = same_name cs ds in (c == d) && rest

abbrev pub dot : List ℕ
dot = 46 ∷ []

abbrev pub dot_dot : List ℕ
dot_dot = 46 ∷ (46 ∷ [])

-- An entry in use other than "." and "..".
unfoldable pub is_listed : Entry → Bool
is_listed e = in_use e && (not (same_name (name_of e) dot) && not (same_name (name_of e) dot_dot))

-- The loop that reads the entries from `ofs` on, until one satisfies `test` or a read is short. It
-- gives the last buffer, with its offset and whether the test holds.
unfoldable pub scan_loop :
    (test : Entry → Bool) (fuel inode : ℕ) (e : Entry) (ofs : ℕ)
    → Fs
    → Run ((Bool × (Entry × ℕ)) × Fs)
scan_loop test zero inode e ofs fs = panic
scan_loop test (suc fuel) inode e ofs fs = do
  ((count, e'), fs') ← Opened.read_at inode e entry_size ofs fs
  elim (count == entry_size) [
    | false ↦ ok ((false, (e', ofs)), fs')
    | true ↦ elim (test e') [
      | true ↦ ok ((true, (e', ofs)), fs')
      | false ↦ scan_loop test fuel inode e' (ofs + entry_size) fs'
    ]
  ]

-- `e` is the buffer of the loop, which C leaves without a value.
module _ (fuel : ℕ) (e : Entry) where
  unfoldable pub is_empty : Dir → Fs → Run (Bool × Fs)
  is_empty dir fs = do
    ((found, _), fs') ← scan_loop is_listed fuel dir.inode e 0 fs
    ok (not found, fs')

  unfoldable pub lookup : Dir → (name : List ℕ) → Fs → Run ((Bool × (Entry × ℕ)) × Fs)
  lookup dir name fs = scan_loop (λ x. in_use x && same_name name (name_of x)) fuel dir.inode e 0 fs

  unfoldable pub dir_lookup : Dir → (name : List ℕ) → Fs → Run (Option ℕ × Fs)
  dir_lookup dir name fs = do
    ((found, (entry, _)), fs') ← lookup dir name fs
    if found then Opened.open_inode (inode_sector entry) fs' else ok (none, fs')

  -- The name, if any, and the directory with its new position.
  unfoldable pub readdir : Dir → Fs → Run (Option (List ℕ) × (Dir × Fs))
  readdir dir fs = do
    ((found, (entry, ofs)), fs') ← scan_loop is_listed fuel dir.inode e dir.pos fs
    if found
        then ok (some (name_of entry), (record dir { pos = ofs + entry_size }, fs'))
        else ok (none, (record dir { pos = ofs }, fs'))

unfoldable pub get_inode : Dir → ℕ
get_inode dir = dir.inode

module _ (disk : MapFile) where
  unfoldable pub open_with : (block inode : Option ℕ) → Fs → Run (Option Dir × Fs)
  open_with (some _) (some a) fs = ok (some (record { inode = a; pos = 0 }), fs)
  open_with none (some a) fs = do fs' ← Opened.close disk (some a) fs; ok (none, fs')
  open_with block none fs = do fs' ← Opened.close disk none fs; ok (none, fs')

  -- dir_open
  unfoldable pub open_dir : (inode : Option ℕ) → Fs → Run (Option Dir × Fs)
  open_dir inode fs = do let (block, fs1) = malloc fs; open_with block inode fs1

  unfoldable pub open_root : Fs → Run (Option Dir × Fs)
  open_root fs = do (inode, fs1) ← Opened.open_inode root_dir_sector fs; open_dir inode fs1

  unfoldable pub reopen : Dir → Fs → Run (Option Dir × Fs)
  reopen dir fs = open_dir (some dir.inode) (Opened.reopen dir.inode fs)

  unfoldable pub close : Option Dir → Fs → Run Fs
  close none fs = ok fs
  close (some dir) fs = Opened.close disk (some dir.inode) fs

  -- `e.in_use = true; strlcpy (e.name, name, sizeof e.name); e.inode_sector = inode_sector;`
  unfoldable pub fill_entry : (name : List ℕ) (sector : ℕ) → Entry → Entry
  fill_entry name sector e = put_word (put_chars name 4 (set_in_use true e)) 0 sector

  unfoldable pub add :
      (fuel : ℕ) (e : Entry) → Dir → (name : List ℕ) (sector : ℕ) → Fs → Run (Bool × Fs)
  add fuel e dir name sector fs =
      if (length name == 0) || ltb name_max (length name) then ok (false, fs) else (do
        ((found, _), fs1) ← lookup fuel e dir name fs
        if found then ok (false, fs1) else (do
          ((_, (entry, ofs)), fs2) ← scan_loop (λ x. not (in_use x)) fuel dir.inode e 0 fs1
          (written, fs3) ←
              Opened.write_at disk dir.inode (fill_entry name sector entry) entry_size ofs fs2
          ok (written == entry_size, fs3)))

  -- The end of dir_remove, with the inode of the entry opened.
  unfoldable pub erase : Dir → (entry : Entry) (ofs : ℕ) → Option ℕ → Fs → Run (Bool × Fs)
  erase dir entry ofs none fs = do fs' ← Opened.close disk none fs; ok (false, fs')
  erase dir entry ofs (some inode) fs = do
    (written, fs1) ← Opened.write_at disk dir.inode (set_in_use false entry) entry_size ofs fs
    if written == entry_size
        then (do fs2 ← Opened.close disk (some inode) (Opened.remove inode fs1); ok (true, fs2))
        else (do fs2 ← Opened.close disk (some inode) fs1; ok (false, fs2))

  unfoldable pub remove : (fuel : ℕ) (e : Entry) → Dir → (name : List ℕ) → Fs → Run (Bool × Fs)
  remove fuel e dir name fs = do
    ((found, (entry, ofs)), fs1) ← lookup fuel e dir name fs
    if found
        then (do
          (inode, fs2) ← Opened.open_inode (inode_sector entry) fs1
          erase dir entry ofs inode fs2)
        else ok (false, fs1)

  -- The end of dir_create, with the directory open.
  unfoldable pub add_dots :
      (fuel : ℕ) (e : Entry) (sector parent_sector : ℕ) → Option Dir → Fs → Run (Bool × Fs)
  add_dots fuel e sector parent_sector none fs = ok (false, fs)
  add_dots fuel e sector parent_sector (some dir) fs = do
    (first, fs1) ← add fuel e dir dot sector fs
    (both, fs2) ← (if first then add fuel e dir dot_dot parent_sector fs1 else ok (false, fs1))
    fs3 ← close (some dir) fs2
    ok (both, fs3)

  -- dir_create behind inode_open.
  unfoldable pub create_in :
      (fuel : ℕ) (e : Entry) (sector parent_sector : ℕ) → Option ℕ → Fs → Run (Bool × Fs)
  create_in fuel e sector parent_sector none fs = ok (false, fs)
  create_in fuel e sector parent_sector (some inode) fs = do
    fs1 ← Opened.set_dir inode true fs
    (dir, fs2) ← open_dir (some inode) fs1
    add_dots fuel e sector parent_sector dir fs2

  unfoldable pub create : (fuel : ℕ) (e : Entry) (sector parent_sector : ℕ) → Fs → Run (Bool × Fs)
  create fuel e sector parent_sector fs = do
    (made, fs1) ← Opened.create disk sector 0 fs
    if made
        then (do
          (inode, fs2) ← Opened.open_inode sector fs1
          create_in fuel e sector parent_sector inode fs2)
        else ok (false, fs1)
