-- ===== src/Filesys/Opened.antt =====
-- filesys/inode.c: the table of open inodes. An inode in memory is known by its address, and the list
-- of open inodes is the sequence of the addresses.
pub mod Counts
use implso.Prelude.{
  ℕ, ◌+◌, ◌-◌, Bool, true, false, not, List, [], ◌∷◌, Option, none, some, ltb, leb, ◌==◌,
  if◌then◌else◌,
}
use implso.Prelude.Run.{Run, ok, ◌>>=◌, ◌>>◌, assert}
use implso.Devices.Block
use implso.Devices.Block.{Block}
use implso.Kernel.Queue
use implso.Filesys.FreeMap
use implso.Filesys.FreeMap.{MapFile, FreeMap}
use implso.Filesys.Inode.{InodeDisk, State, inode_magic, to_sector, of_sector}
use implso.Filesys.Inode.Access
use implso.Filesys.Inode.Deallocate
use implso.Filesys.Inode.Extend

pub record Inode : Type 0 where
  pub sector : ℕ
  pub open_cnt : ℕ
  pub removed : Bool
  pub deny_write_cnt : ℕ
  pub contents : InodeDisk  -- `data`

-- `memory` is what the next calls of malloc and calloc give, and none once it is used up.
pub record Fs : Type 0 where
  pub inodes : ℕ → Inode
  pub open_inodes : List ℕ
  pub free : FreeMap
  pub dev : Block
  pub memory : List (Option ℕ)

abbrev pub put_inode : ℕ → Inode → Fs → Fs
put_inode a inode fs = record fs { inodes = λ x. if x == a then inode else fs.inodes x }

unfoldable pub next_block : List (Option ℕ) → Fs → Option ℕ × Fs
next_block [] fs = (none, fs)
next_block (block ∷ rest) fs = (block, record fs { memory = rest })

abbrev pub malloc : Fs → Option ℕ × Fs
malloc fs = next_block fs.memory fs

abbrev pub given : Option ℕ → Bool
given none = false
given (some _) = true

-- inode_init
unfoldable pub init : Fs → Fs
init fs = record fs { open_inodes = [] }

-- The state of the operations on a disk inode, and back.
abbrev pub with_state : State → Fs → Fs
with_state st fs = record fs { free = st.free; dev = st.dev }

abbrev pub state_of : InodeDisk → Fs → State
state_of d fs = record { inode = d; free = fs.free; dev = fs.dev }

-- inode_reopen, for an inode that is not null.
unfoldable pub reopen : ℕ → Fs → Fs
reopen a fs = put_inode a (record (fs.inodes a) { open_cnt = (fs.inodes a).open_cnt + 1 }) fs

-- The loop of inode_open over the list.
unfoldable pub find_open : Fs → (sector : ℕ) → List ℕ → Option ℕ
find_open fs sector [] = none
find_open fs sector (a ∷ rest) =
    let later = find_open fs sector rest in if (fs.inodes a).sector == sector then some a else later

-- The initialization of a new inode at the address `a`.
unfoldable pub enter : (sector a : ℕ) → Fs → Run Fs
enter sector a fs = do
  stored ← Block.read fs.dev sector
  let inode : Inode = record {
    sector = sector;
    open_cnt = 1;
    removed = false;
    deny_write_cnt = 0;
    contents = of_sector stored;
  }
  ok (put_inode a inode (record fs { open_inodes = a ∷ fs.open_inodes }))

unfoldable pub enter_block : (sector : ℕ) → Option ℕ × Fs → Run (Option ℕ × Fs)
enter_block sector (none, fs) = ok (none, fs)
enter_block sector (some a, fs) = do fs' ← enter sector a fs; ok (some a, fs')

unfoldable pub open_found : (sector : ℕ) → Option ℕ → Fs → Run (Option ℕ × Fs)
open_found sector (some a) fs = ok (some a, reopen a fs)
open_found sector none fs = enter_block sector (malloc fs)

-- inode_open
unfoldable pub open_inode : (sector : ℕ) → Fs → Run (Option ℕ × Fs)
open_inode sector fs = open_found sector (find_open fs sector fs.open_inodes) fs

unfoldable pub get_inumber : ℕ → Fs → ℕ
get_inumber a fs = (fs.inodes a).sector

unfoldable pub length_of : ℕ → Fs → ℕ
length_of a fs = (fs.inodes a).contents.length

unfoldable pub is_dir : ℕ → Fs → Bool
is_dir a fs = not ((fs.inodes a).contents.is_dir == 0)

unfoldable pub is_removed : ℕ → Fs → Bool
is_removed a fs = (fs.inodes a).removed

-- inode_remove
unfoldable pub remove : ℕ → Fs → Fs
remove a fs = put_inode a (record (fs.inodes a) { removed = true }) fs

unfoldable pub deny_write : ℕ → Fs → Run Fs
deny_write a fs = do
  let inode = fs.inodes a
  let cnt = inode.deny_write_cnt + 1
  assert (leb cnt inode.open_cnt)
  ok (put_inode a (record inode { deny_write_cnt = cnt }) fs)

unfoldable pub allow_write : ℕ → Fs → Run Fs
allow_write a fs = do
  let inode = fs.inodes a
  assert (ltb 0 inode.deny_write_cnt)
  assert (leb inode.deny_write_cnt inode.open_cnt)
  ok (put_inode a (record inode { deny_write_cnt = inode.deny_write_cnt - 1 }) fs)

-- inode_set_dir
unfoldable pub set_dir : ℕ → (is_dir : Bool) → Fs → Run Fs
set_dir a is_dir fs = do
  let inode = fs.inodes a
  let d = record inode.contents { is_dir = if is_dir then 1 else 0 }
  dev' ← Block.write fs.dev inode.sector (to_sector d)
  ok (put_inode a (record inode { contents = d }) (record fs { dev = dev' }))

-- inode_read_at, which asks malloc for the bounce buffer at most once.
unfoldable pub read_at : ℕ → (buffer : ℕ → ℕ) (size offset : ℕ) → Fs → Run ((ℕ × (ℕ → ℕ)) × Fs)
read_at a buffer size offset fs = do
  let (block, fs1) = malloc fs
  r ← Access.read_at (given block) fs1.dev (fs1.inodes a).contents buffer size offset
  ok (r, fs1)

module _ (disk : MapFile) where
  -- What closes behind the last opener.
  unfoldable pub discard : ℕ → Fs → Run Fs
  discard a fs = do
    let fs1 = record fs { open_inodes = Queue.remove a fs.open_inodes }
    if (fs1.inodes a).removed
        then (do
          free1 ← FreeMap.release disk (fs1.inodes a).sector 1 fs1.free
          free2 ← Deallocate.deallocate disk fs1.dev (fs1.inodes a).contents free1
          ok (record fs1 { free = free2 }))
        else ok fs1

  -- inode_close, for an inode that is not null. A count of openers below 0 is not represented: the
  -- count of an open inode is positive.
  unfoldable pub close_inode : ℕ → Fs → Run Fs
  close_inode a fs =
      let cnt = (fs.inodes a).open_cnt - 1 in
      let fs1 = put_inode a (record (fs.inodes a) { open_cnt = cnt }) fs in
      if (fs.inodes a).open_cnt == 1 then discard a fs1 else ok fs1

  unfoldable pub close : Option ℕ → Fs → Run Fs
  close none fs = ok fs
  close (some a) fs = close_inode a fs

  unfoldable pub write_at : ℕ → (buffer : ℕ → ℕ) (size offset : ℕ) → Fs → Run (ℕ × Fs)
  write_at a buffer size offset fs = do
    let (block, fs1) = malloc fs
    let inode = fs1.inodes a
    (written, st) ←
        Access.write_at (given block) disk inode.sector inode.deny_write_cnt buffer size offset
          (state_of inode.contents fs1)
    ok (written, put_inode a (record inode { contents = st.inode }) (with_state st fs1))

  -- The inode that calloc gives, with its magic number.
  abbrev pub blank_inode : InodeDisk
  blank_inode = record {
    length = 0;
    magic = inode_magic;
    direct = λ i. 0;
    indirect = 0;
    doubly_indirect = 0;
    is_dir = 0;
  }

  -- `if (length > 0)` with the extension.
  unfoldable pub create_data : (length : ℕ) → State → Run (Bool × State)
  create_data length st = if ltb 0 length then Extend.extend disk length st else ok (true, st)

  unfoldable pub create_inode : (sector length : ℕ) → Fs → Run (Bool × Fs)
  create_inode sector length fs = do
    (extended, st) ← create_data length (state_of blank_inode fs)
    if extended
        then (do
          dev' ← Block.write st.dev sector (to_sector st.inode)
          ok (true, with_state (record st { dev = dev' }) fs))
        else ok (false, with_state st fs)

  -- inode_create
  unfoldable pub create : (sector length : ℕ) → Fs → Run (Bool × Fs)
  create sector length fs = do
    let (block, fs1) = malloc fs
    if given block then create_inode sector length fs1 else ok (false, fs1)
