-- ===== src/Filesys/Inode/Extend/Whole.antt =====
-- What inode_extend promises on every path.
use implso.Prelude.{ℕ, ◌≤◌, ◌<◌, ◌≡◌, ◌≢◌, Bool, true, false}
use implso.Prelude.Run
use implso.Prelude.Run.{Run, ok, ◌>>=◌}
use implso.Devices.Block.{zeros}
use implso.Kernel.Bitmap.Single.{bit}
use implso.Filesys.FreeMap.{MapFile}
use implso.Filesys.Inode.{State, bytes_to_sectors}
use implso.Filesys.Inode.Slots.{Slot, place, max_sectors, live, IsMounted, IsLaidOut}
use implso.Filesys.Inode.Extend.Take.{content, Keeps, Around, Shortage}

-- The inode in a state describes a file: all that its length needs is laid out.
pub record IsFile (st : State) : Type 0 where
  pub mounted : IsMounted st
  pub layout : IsLaidOut (bytes_to_sectors st.inode.length) st

-- The sectors of other owners: marked in the map, and not the place of a slot of the file.
abbrev pub IsOther : State → ℕ → Type 0
IsOther st x =
    (bit st.free.map x ≡ true)
    × ((s : Slot) → live (bytes_to_sectors st.inode.length) s ≡ true → place st.inode st.dev s ≢ x)

-- They are still marked, and hold what they did.
abbrev pub SameOthers : State → State → Type 0
SameOthers st st' =
    (x : ℕ) → IsOther st x → (bit st'.free.map x ≡ true) × (st'.dev.sectors x ≡ st.dev.sectors x)

-- What inode_extend promises of a file: false, for want of room or for a short write of the map, and
-- the file as it was; or true, with the new length, the old sectors in their places with their
-- contents, and zeros in the new ones.
pub data Extended (disk : MapFile) (st : State) (new_length : ℕ) : Bool × State → Type 0 where
  refused :
      (st' : State)
      → Shortage disk st'.free
      → SameOthers st st'
      → IsFile st'
      → Keeps (bytes_to_sectors st.inode.length) st st'
      → Extended disk st new_length (false, st')
  extended :
      (st' : State)
      → SameOthers st st'
      → IsFile st'
      → st'.inode.length ≡ new_length
      → ((i : ℕ) → i < bytes_to_sectors st.inode.length → content st' i ≡ content st i)
      → ((i : ℕ)
          → bytes_to_sectors st.inode.length ≤ i
          → i < bytes_to_sectors new_length
          → content st' i ≡ zeros)
      → Extended disk st new_length (true, st')

module _ (disk : MapFile) (new_length : ℕ) (st : State) (file : IsFile st)
    (grows : st.inode.length ≤ new_length) (fits : bytes_to_sectors new_length ≤ max_sectors) where
  abbrev old_sectors : ℕ
  old_sectors = bytes_to_sectors st.inode.length

  abbrev new_sectors : ℕ
  new_sectors = bytes_to_sectors new_length

  abbrev env : Around
  env = record { disk = disk; guarded = IsOther st; contents = st.dev.sectors }
