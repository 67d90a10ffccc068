-- ===== src/Filesys/Paths.antt =====
-- filesys/filesys.c: paths, and the operations on files by their paths. A path is the sequence of its
-- characters; `cwd` is the directory of the running thread.
use implso.Prelude.{
  ℕ, Bool, true, false, not, ◌||◌, List, [], ◌∷◌, ◌++◌, Option, none, some, ltb, ◌==◌,
  if◌then◌else◌, length,
}
use implso.Prelude.Run.{Run, ok, ◌>>=◌}
use implso.Filesys.Directory
use implso.Filesys.Directory.{Dir, Entry, dot, name_max}
use implso.Filesys.File
use implso.Filesys.File.{File}
use implso.Filesys.FreeMap
use implso.Filesys.FreeMap.{MapFile, root_dir_sector}
use implso.Filesys.Opened
use implso.Filesys.Opened.{Fs, malloc, given}

abbrev pub slash : ℕ
slash = 47

-- A token before the ones that follow, unless it is empty.
abbrev pub with_token : List ℕ → List (List ℕ) → List (List ℕ)
with_token [] tokens = tokens
with_token (c ∷ token) tokens = (c ∷ token) ∷ tokens

-- What strtok_r gives one after the other for the delimiter "/", where `token` has been read.
unfoldable pub tokens : (token : List ℕ) → List ℕ → List (List ℕ)
tokens token [] = with_token token []
tokens token (c ∷ path) =
    let next = tokens [] path in
    let longer = tokens (token ++ (c ∷ [])) path in
    if c == slash then with_token token next else longer

module _ (disk : MapFile) (fuel : ℕ) (e : Entry) where
  -- `success` and then `next`, or the failure.
  abbrev pub and_then : Bool → Fs → (Fs → Run (Bool × Fs)) → Run (Bool × Fs)
  and_then true fs next = next fs
  and_then false fs next = ok (false, fs)

  -- A directory closed, with a result.
  abbrev pub closing {ℓ} : {A : Type ℓ} → Option Dir → A → Fs → Run (A × Fs)
  closing dir a fs = do fs' ← Directory.close disk dir fs; ok (a, fs')

  abbrev pub closing_inode {ℓ} : {A : Type ℓ} → ℕ → A → Fs → Run (A × Fs)
  closing_inode inode a fs = do fs' ← Opened.close disk (some inode) fs; ok (a, fs')

  -- The step into the intermediate directory whose inode dir_lookup gives.
  unfoldable pub step_into : Dir → Option ℕ → Fs → Run (Option Dir × Fs)
  step_into dir none fs = closing (some dir) none fs
  step_into dir (some inode) fs =
      if Opened.is_dir inode fs
      then (do fs1 ← Directory.close disk (some dir) fs; Directory.open_dir disk (some inode) fs1)
      else (do fs1 ← Opened.close disk (some inode) fs; closing (some dir) none fs1)

  -- The loop over the tokens; `prev` is the one before. It gives the last directory and token.
  unfoldable pub walk :
      (prev : Option (List ℕ))
      → List (List ℕ)
      → Option Dir
      → Fs
      → Run ((Option Dir × Option (List ℕ)) × Fs)
  walk prev rest none fs = ok ((none, prev), fs)
  walk prev [] (some dir) fs = ok ((some dir, prev), fs)
  walk none (token ∷ rest) (some dir) fs = walk (some token) rest (some dir) fs
  walk (some prev) (token ∷ rest) (some dir) fs = do
    (inode, fs1) ← Directory.dir_lookup fuel e dir prev fs
    (dir', fs2) ← step_into dir inode fs1
    walk (some token) rest dir' fs2

  -- `char *copy` and where the path starts.
  unfoldable pub start : (cwd : Option Dir) → (path : List ℕ) → Fs → Run (Option Dir × Fs)
  start cwd [] fs = ok (none, fs)
  start none (c ∷ path) fs = Directory.open_root disk fs
  start (some dir) (c ∷ path) fs =
      if c == slash then Directory.open_root disk fs else Directory.reopen disk dir fs

  -- The final component: `.` for no token, and a failure where it is too long.
  unfoldable pub last_name : Option (List ℕ) → Option (List ℕ)
  last_name none = some dot
  last_name (some prev) = if ltb name_max (length prev) then none else some prev

  unfoldable pub check_dir : Dir → Option (List ℕ) → Fs → Run (Option (Dir × List ℕ) × Fs)
  check_dir dir none fs = closing (some dir) none fs
  check_dir dir (some name) fs =
      if Opened.is_removed (Directory.get_inode dir) fs
      then closing (some dir) none fs
      else ok (some (dir, name), fs)

  unfoldable pub resolved : (Option Dir × Option (List ℕ)) → Fs → Run (Option (Dir × List ℕ) × Fs)
  resolved (none, prev) fs = ok (none, fs)
  resolved (some dir, prev) fs = check_dir dir (last_name prev) fs

  unfoldable pub resolve_copy :
      (cwd : Option Dir) → (path : List ℕ) → Fs → Run (Option (Dir × List ℕ) × Fs)
  resolve_copy cwd path fs = do
    (dir, fs1) ← start cwd path fs
    (end, fs2) ← walk none (tokens [] path) dir fs1
    resolved end fs2

  -- resolve_path, for a path that is not null: the parent directory and the final name.
  unfoldable pub resolve_path :
      (cwd : Option Dir) → (path : List ℕ) → Fs → Run (Option (Dir × List ℕ) × Fs)
  resolve_path cwd [] fs = ok (none, fs)
  resolve_path cwd (c ∷ path) fs = do
    let (copy, fs1) = malloc fs
    if given copy then resolve_copy cwd (c ∷ path) fs1 else ok (none, fs1)

  -- `if (!success && sector != 0) free_map_release (sector, 1);`
  unfoldable pub give_back : (success : Bool) (sector : ℕ) → Fs → Run Fs
  give_back success sector fs =
      if success || (sector == 0)
      then ok fs
      else (do free' ← FreeMap.release disk sector 1 fs.free; ok (record fs { free = free' }))

  -- A new sector and what `make` puts there, entered in the parent directory under the name.
  unfoldable pub make_entry :
      (make : ℕ → Fs → Run (Bool × Fs)) → Dir → (name : List ℕ) → Option ℕ → Fs → Run (Bool × Fs)
  make_entry make dir name none fs = ok (false, fs)
  make_entry make dir name (some sector) fs = do
    (made, fs1) ← make sector fs
    (success, fs2) ← and_then made fs1 (Directory.add disk fuel e dir name sector)
    fs3 ← give_back success sector fs2
    ok (success, fs3)

  unfoldable pub make_at :
      (make : Dir → ℕ → Fs → Run (Bool × Fs)) → Option (Dir × List ℕ) → Fs → Run (Bool × Fs)
  make_at make none fs = ok (false, fs)
  make_at make (some (dir, name)) fs = do
    (sector, free') ← FreeMap.allocate disk 1 fs.free
    (success, fs1) ← make_entry (make dir) dir name sector (record fs { free = free' })
    closing (some dir) success fs1

  -- filesys_create
  unfoldable pub create :
      (cwd : Option Dir) → (path : List ℕ) (initial_size : ℕ) → Fs → Run (Bool × Fs)
  create cwd path initial_size fs = do
    (found, fs1) ← resolve_path cwd path fs
    make_at (λ dir sector. Opened.create disk sector initial_size) found fs1

  -- filesys_mkdir
  unfoldable pub mkdir : (cwd : Option Dir) → (path : List ℕ) → Fs → Run (Bool × Fs)
  mkdir cwd path fs = do
    (found, fs1) ← resolve_path cwd path fs
    make_at
        (λ dir sector fs2.
          Directory.create disk fuel e sector (Opened.get_inumber (Directory.get_inode dir) fs2)
            fs2)
        found fs1

  -- `if (dir != NULL) dir_lookup (dir, file_name, &inode); dir_close (dir);`
  unfoldable pub inode_at : Option (Dir × List ℕ) → Fs → Run (Option ℕ × Fs)
  inode_at none fs = ok (none, fs)
  inode_at (some (dir, name)) fs = do
    (inode, fs1) ← Directory.dir_lookup fuel e dir name fs
    closing (some dir) inode fs1

  -- filesys_open
  unfoldable pub open_file : (cwd : Option Dir) → (path : List ℕ) → Fs → Run (Option File × Fs)
  open_file cwd path fs = do
    (found, fs1) ← resolve_path cwd path fs
    (inode, fs2) ← inode_at found fs1
    File.open_file disk inode fs2

  unfoldable pub refuse_removed : Option ℕ → Fs → Run (Option ℕ × Fs)
  refuse_removed none fs = ok (none, fs)
  refuse_removed (some inode) fs =
      if Opened.is_removed inode fs then closing_inode inode none fs else ok (some inode, fs)

  -- filesys_open_inode
  unfoldable pub open_inode : (cwd : Option Dir) → (path : List ℕ) → Fs → Run (Option ℕ × Fs)
  open_inode cwd path fs = do
    (found, fs1) ← resolve_path cwd path fs
    (inode, fs2) ← inode_at found fs1
    refuse_removed inode fs2

  -- dir_is_empty of the directory that dir_open gives, if it gives one.
  unfoldable pub empty_target : Option Dir → Fs → Run (Bool × Fs)
  empty_target none fs = ok (false, fs)
  empty_target (some target) fs = do
    (empty, fs1) ← Directory.is_empty fuel e target fs
    closing (some target) empty fs1

  -- Whether the constraints on directories let the inode be removed; it is closed then.
  unfoldable pub may_remove : ℕ → Fs → Run (Bool × Fs)
  may_remove inode fs =
      if not (Opened.is_dir inode fs)
      then closing_inode inode true fs
      else if Opened.get_inumber inode fs == root_dir_sector
      then closing_inode inode false fs
      else (do (target, fs1) ← Directory.open_dir disk (some inode) fs; empty_target target fs1)

  unfoldable pub remove_in : Dir → (name : List ℕ) → Option ℕ → Fs → Run (Bool × Fs)
  remove_in dir name none fs = closing (some dir) false fs
  remove_in dir name (some inode) fs = do
    (may, fs1) ← may_remove inode fs
    (success, fs2) ← and_then may fs1 (Directory.remove disk fuel e dir name)
    closing (some dir) success fs2

  unfoldable pub remove_at : Option (Dir × List ℕ) → Fs → Run (Bool × Fs)
  remove_at none fs = ok (false, fs)
  remove_at (some (dir, name)) fs = do
    (inode, fs1) ← Directory.dir_lookup fuel e dir name fs
    remove_in dir name inode fs1

  -- filesys_remove
  unfoldable pub remove : (cwd : Option Dir) → (path : List ℕ) → Fs → Run (Bool × Fs)
  remove cwd path fs = do (found, fs1) ← resolve_path cwd path fs; remove_at found fs1

  -- The end of filesys_chdir: the new directory of the thread.
  unfoldable pub enter_dir : (cwd : Option Dir) → Option Dir → Fs → Run ((Bool × Option Dir) × Fs)
  enter_dir cwd none fs = ok ((false, cwd), fs)
  enter_dir cwd (some dir) fs = do fs1 ← Directory.close disk cwd fs; ok ((true, some dir), fs1)

  unfoldable pub chdir_to : (cwd : Option Dir) → Option ℕ → Fs → Run ((Bool × Option Dir) × Fs)
  chdir_to cwd none fs = ok ((false, cwd), fs)
  chdir_to cwd (some inode) fs =
      if Opened.is_dir inode fs
      then (do (dir, fs1) ← Directory.open_dir disk (some inode) fs; enter_dir cwd dir fs1)
      else closing_inode inode (false, cwd) fs

  -- filesys_chdir, with the directory of the thread after it.
  unfoldable pub chdir : (cwd : Option Dir) → (path : List ℕ) → Fs → Run ((Bool × Option Dir) × Fs)
  chdir cwd path fs = do
    (found, fs1) ← resolve_path cwd path fs
    (inode, fs2) ← inode_at found fs1
    chdir_to cwd inode fs2
