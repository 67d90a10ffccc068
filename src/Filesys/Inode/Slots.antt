-- ===== src/Filesys/Inode/Slots.antt =====
-- The sectors that an inode owns: its data sectors and its index blocks, as slots of a layout.
use implso.Prelude.{
  ℕ, ◌+◌, ◌-◌, ◌*◌, ◌/◌, ◌%◌, ◌≤◌, ◌<◌, ◌≡◌, refl, ap, ◌≢◌, ◌⊎◌, inl, inr, Bool, true, false, ◌||◌,
  ltb, ◌==◌, if◌then◌else◌, arith, Bool-cases,
}
use implso.Devices.Block.{Block, get_word}
use implso.Kernel.Bitmap.Single.{IsValid, bit}
use implso.Filesys.FreeMap.Allocate.{IsOpen}
use implso.Filesys.Inode.{InodeDisk, State, direct_blocks, ptrs_per_sector}

pub data Slot : Type 0 where
  data_sector : ℕ → Slot
  indirect_block : Slot
  doubly_block : Slot
  inner_block : ℕ → Slot

-- The first index behind the direct, and behind the indirect blocks, and the largest file.
abbrev pub indirect_end : ℕ
indirect_end = direct_blocks + ptrs_per_sector

abbrev pub max_sectors : ℕ
max_sectors = direct_blocks + ptrs_per_sector + ptrs_per_sector * ptrs_per_sector

-- The slots of a file of `n` sectors.
abbrev pub live : ℕ → Slot → Bool
live n (data_sector i) = ltb i n
live n indirect_block = ltb direct_blocks n
live n doubly_block = ltb indirect_end n
live n (inner_block k) = ltb (indirect_end + ptrs_per_sector * k) n

-- The sector that a slot points to.
abbrev pub place : InodeDisk → Block → Slot → ℕ
place d dev (data_sector i) =
    if ltb i direct_blocks
    then d.direct i
    else if ltb i indirect_end
    then get_word (dev.sectors d.indirect) (i - direct_blocks)
    else get_word
        (dev.sectors
          (get_word (dev.sectors d.doubly_indirect) ((i - indirect_end) / ptrs_per_sector)))
        ((i - indirect_end) % ptrs_per_sector)
place d dev indirect_block = d.indirect
place d dev doubly_block = d.doubly_indirect
place d dev (inner_block k) = get_word (dev.sectors d.doubly_indirect) k

-- Sets of slots: one more slot, and the condition that the index blocks of a slot are in the set.
abbrev pub slot_eq : Slot → Slot → Bool
slot_eq (data_sector i) (data_sector j) = i == j
slot_eq indirect_block indirect_block = true
slot_eq doubly_block doubly_block = true
slot_eq (inner_block k) (inner_block j) = k == j
slot_eq _ _ = false

pub slot_eq→eq : (s t : Slot) → slot_eq s t ≡ true → s ≡ t
slot_eq→eq (data_sector i) (data_sector j) h = ap data_sector (ground arith)
slot_eq→eq indirect_block indirect_block h = refl
slot_eq→eq doubly_block doubly_block h = refl
slot_eq→eq (inner_block k) (inner_block j) h = ap inner_block (ground arith)
slot_eq→eq _ _ h = cc

abbrev pub plus : (Slot → Bool) → Slot → Slot → Bool
plus is_live new s = is_live s || slot_eq s new

pub plus-cases :
    (is_live : Slot → Bool) (new s : Slot)
    → plus is_live new s ≡ true
    → (s ≡ new) ⊎ (is_live s ≡ true)
plus-cases is_live new s h = elim (Bool-cases (is_live s)) [
  | inl e ↦ inr e
  | inr e ↦ inl (slot_eq→eq s new (rw e at h))
]

pub record IsClosed (is_live : Slot → Bool) : Type 0 where
  pub needs_indirect :
      (i : ℕ)
      → is_live (data_sector i) ≡ true
      → direct_blocks ≤ i
      → i < indirect_end
      → is_live indirect_block ≡ true
  pub needs_inner :
      (i : ℕ)
      → is_live (data_sector i) ≡ true
      → indirect_end ≤ i
      → is_live (inner_block ((i - indirect_end) / ptrs_per_sector)) ≡ true
  pub needs_doubly : (k : ℕ) → is_live (inner_block k) ≡ true → is_live doubly_block ≡ true

pub live-IsClosed : (n : ℕ) → IsClosed (live n)
live-IsClosed n = record {
  needs_indirect = λ i h lo hi. ground arith;
  needs_inner = λ i h lo. ground arith;
  needs_doubly = λ k h. ground arith;
}

-- A placement of the live slots: taken sectors of the device, and no sector twice.
pub record Layout (size : ℕ) (taken : ℕ → Bool) (at : Slot → ℕ) (is_live : Slot → Bool)
    : Type 0 where
  pub within : (s : Slot) → is_live s ≡ true → at s < size
  pub marked : (s : Slot) → is_live s ≡ true → taken (at s) ≡ true
  pub distinct : (s t : Slot) → is_live s ≡ true → is_live t ≡ true → at s ≡ at t → s ≡ t

-- The layout of the inode in a state, for a file of `n` sectors.
abbrev pub IsLaidOut : ℕ → State → Type 0
IsLaidOut n st = Layout st.dev.size (bit st.free.map) (place st.inode st.dev) (live n)

-- What every state of the file system has: a writable device, and a valid map of its sectors
-- whose file is open.
pub record IsMounted (st : State) : Type 0 where
  pub writable : st.dev.foreign ≡ false
  pub valid : IsValid st.free.map
  pub sized : st.free.map.bit_cnt ≡ st.dev.size
  pub opened : IsOpen st.free

-- One more slot, at a sector that no live slot has.
pub Layout-add :
    {size : ℕ} {taken taken' : ℕ → Bool} {at at' : Slot → ℕ} {is_live is_live' : Slot → Bool}
    (new : Slot)
    → Layout size taken at is_live
    → ((x : ℕ) → taken x ≡ true → taken' x ≡ true)
    → ((s : Slot) → is_live s ≡ true → at' s ≡ at s)
    → at' new < size
    → taken' (at' new) ≡ true
    → ((s : Slot) → is_live s ≡ true → at s ≢ at' new)
    → ((s : Slot) → is_live' s ≡ true → (s ≡ new) ⊎ (is_live s ≡ true))
    → Layout size taken' at' is_live'
Layout-add {size} {taken'} {at} {at'} {is_live} new l grows keep lt mark fresh cases = record {
  within = λ s h. elim (cases s h) [ inl e ↦ rw e lt | inr old ↦ rw (keep s old) (l.within s old) ];
  marked = λ s h. elim (cases s h) [
    | inl e ↦ rw e mark
    | inr old ↦ rw (keep s old) (grows _ (l.marked s old))
  ];
  distinct = λ s t h k e. pairs s t (cases s h) (cases t k) e;
}
  where
    pairs :
        (s t : Slot)
        → (s ≡ new) ⊎ (is_live s ≡ true)
        → (t ≡ new) ⊎ (is_live t ≡ true)
        → at' s ≡ at' t
        → s ≡ t
    pairs s t (inl p) (inl q) e = cc
    pairs s t (inl p) (inr q) e = absurd (fresh t q (cc (keep t q, ap at' p)))
    pairs s t (inr p) (inl q) e = absurd (fresh s p (cc (keep s p, ap at' q)))
    pairs s t (inr p) (inr q) e = l.distinct s t p q (cc (keep s p, keep t q))

-- The same slots at the same sectors, of which none has been released.
pub Layout-keep :
    {size : ℕ} {taken taken' : ℕ → Bool} {at at' : Slot → ℕ} {is_live is_live' : Slot → Bool}
    → Layout size taken at is_live
    → ((s : Slot) → is_live s ≡ true → taken (at s) ≡ true → taken' (at s) ≡ true)
    → ((s : Slot) → is_live s ≡ true → at' s ≡ at s)
    → ((s : Slot) → is_live' s ≡ true → is_live s ≡ true)
    → Layout size taken' at' is_live'
Layout-keep l grows keep sub = record {
  within = λ s h. rw (keep s (sub s h)) (l.within s (sub s h));
  marked = λ s h. rw (keep s (sub s h)) (grows s (sub s h) (l.marked s (sub s h)));
  distinct =
      λ s t h k e. l.distinct s t (sub s h) (sub t k) (cc (keep s (sub s h), keep t (sub t k)));
}
