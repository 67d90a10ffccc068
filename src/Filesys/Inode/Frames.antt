-- ===== src/Filesys/Inode/Frames.antt =====
-- What a write to one sector does to the places of the slots.
use implso.Prelude.{
  ℕ, ◌-◌, ◌/◌, ◌%◌, ◌^◌, ◌≤◌, ◌<◌, ◌≡◌, refl, ◌≢◌, ◌⊎◌, inl, inr, Bool, true, false, ltb, lt→ltb,
  ◌==◌, arith, Bool-cases,
}
use implso.Devices.Block.{Block, Sector, get_word, put_word, get_word-put_word, stored}
use implso.Filesys.Inode.{InodeDisk, direct_blocks, ptrs_per_sector}
use implso.Filesys.Inode.Slots.{
  Slot, data_sector, indirect_block, doubly_block, inner_block, indirect_end, place, live, IsClosed,
}

-- The place of a data sector behind the direct ones.
pub place-indirect :
    (d : InodeDisk) (dev : Block) (i : ℕ)
    → direct_blocks ≤ i
    → i < indirect_end
    → place d dev (data_sector i) ≡ get_word (dev.sectors d.indirect) (i - direct_blocks)
place-indirect d dev i lo hi =
    let e : ltb i direct_blocks ≡ false = ground arith in rw (e, lt→ltb i indirect_end hi)

pub place-inner :
    (d : InodeDisk) (dev : Block) (i : ℕ)
    → indirect_end ≤ i
    → place d dev (data_sector i)
      ≡ get_word
          (dev.sectors (place d dev (inner_block ((i - indirect_end) / ptrs_per_sector))))
          ((i - indirect_end) % ptrs_per_sector)
place-inner d dev i lo =
    let e : ltb i direct_blocks ≡ false = ground arith in
    let f : ltb i indirect_end ≡ false = ground arith in rw (e, f)

-- The word that a place is read from is the same on two devices.
abbrev pub SameWord : Block → Block → (sector word : ℕ) → Type 0
SameWord dev dev' sector word =
    get_word (dev'.sectors sector) word ≡ get_word (dev.sectors sector) word

module _ (d : InodeDisk) (dev dev' : Block) where
  -- All the words that the place of a slot is read from are the same.
  abbrev pub Reads : Slot → Type 0
  Reads (data_sector i) =
      (direct_blocks ≤ i → i < indirect_end → SameWord dev dev' d.indirect (i - direct_blocks))
      × (indirect_end ≤ i
          → SameWord dev dev' d.doubly_indirect ((i - indirect_end) / ptrs_per_sector))
      × (indirect_end ≤ i
          → SameWord dev dev' (place d dev (inner_block ((i - indirect_end) / ptrs_per_sector)))
              ((i - indirect_end) % ptrs_per_sector))
  Reads (inner_block k) = SameWord dev dev' d.doubly_indirect k
  Reads _ = Unit

  pub place-eq : (s : Slot) → Reads s → place d dev' s ≡ place d dev s
  place-eq (data_sector i) (a, b, c) = elim (Bool-cases (ltb i direct_blocks)) [
    | inl lt ↦ rw lt
    | inr ge ↦ elim (Bool-cases (ltb i indirect_end)) [
      | inl lt ↦ rw (ge, lt) (a (ground arith) (ground arith))
      | inr far ↦ rw (ge, far, b (ground arith)) (c (ground arith))
    ]
  ]
  place-eq indirect_block h = refl
  place-eq doubly_block h = refl
  place-eq (inner_block k) h = h

pub stored-ne :
    (dev : Block) (x y : ℕ) (buffer : Sector)
    → y ≢ x
    → (stored dev x buffer).sectors y ≡ dev.sectors y
stored-ne dev x y buffer ne = let e : (x == y) ≡ false = ground arith in rw e

pub stored_self : (dev : Block) (x : ℕ) (buffer : Sector) → (stored dev x buffer).sectors x ≡ buffer
stored_self dev x buffer = let e : (x == x) ≡ true = ground arith in rw e

pub SameWord-stored :
    (dev : Block) (x y : ℕ) (buffer : Sector) (w : ℕ)
    → y ≢ x
    → SameWord dev (stored dev x buffer) y w
SameWord-stored dev x y buffer w ne = rw (stored-ne dev x y buffer ne)

-- A write of one word to a sector, and a word elsewhere or in another place of it.
pub SameWord-put :
    (dev : Block) (x idx v y w : ℕ)
    → v < 2 ^ 32
    → (y ≢ x) ⊎ (idx ≢ w)
    → SameWord dev (stored dev x (put_word (dev.sectors x) idx v)) y w
SameWord-put dev x idx v y w small (inl ne) = SameWord-stored dev x y _ w ne
SameWord-put dev x idx v y w small (inr ne) = elim (Bool-cases (x == y)) [
  | inl e ↦
      let x_y : x ≡ y = ground arith in
      let miss : (idx == w) ≡ false = ground arith in
      rw (e, get_word-put_word (dev.sectors x) idx v w small, miss, x_y)
  | inr e ↦ rw e
]

pub get_word-put :
    (dev : Block) (x idx v : ℕ)
    → v < 2 ^ 32
    → get_word ((stored dev x (put_word (dev.sectors x) idx v)).sectors x) idx ≡ v
get_word-put dev x idx v small =
    let e : (idx == idx) ≡ true = ground arith in
    rw (
      stored_self dev x (put_word (dev.sectors x) idx v),
      get_word-put_word (dev.sectors x) idx v idx small,
      e,
    )

abbrev pub is_index : Slot → Bool
is_index (data_sector i) = false
is_index _ = true

-- A write to a sector that is no live index block changes no place.
pub place-stored_index :
    (d : InodeDisk) (dev : Block) (x : ℕ) (buffer : Sector) {is_live : Slot → Bool}
    → IsClosed is_live
    → ((s : Slot) → is_live s ≡ true → is_index s ≡ true → place d dev s ≢ x)
    → (s : Slot) → is_live s ≡ true
    → place d (stored dev x buffer) s ≡ place d dev s
place-stored_index d dev x buffer {is_live} closed apart s h =
    place-eq d dev (stored dev x buffer) s (reads s h)
  where
    reads : (s : Slot) → is_live s ≡ true → Reads d dev (stored dev x buffer) s
    reads (data_sector i) h = (
      λ lo hi.
          SameWord-stored dev x _ buffer _
            (apart indirect_block (closed.needs_indirect i h lo hi) refl),
      λ lo.
          SameWord-stored dev x _ buffer _
            (apart doubly_block (closed.needs_doubly _ (closed.needs_inner i h lo)) refl),
      λ lo.
          SameWord-stored dev x _ buffer _ (apart (inner_block _) (closed.needs_inner i h lo) refl),
    )
    reads indirect_block h = tt
    reads doubly_block h = tt
    reads (inner_block k) h =
        SameWord-stored dev x _ buffer _ (apart doubly_block (closed.needs_doubly k h) refl)

pub place-stored :
    (d : InodeDisk) (dev : Block) (x : ℕ) (buffer : Sector) {is_live : Slot → Bool}
    → IsClosed is_live
    → ((s : Slot) → is_live s ≡ true → place d dev s ≢ x)
    → (s : Slot) → is_live s ≡ true
    → place d (stored dev x buffer) s ≡ place d dev s
place-stored d dev x buffer closed apart s h =
    place-stored_index d dev x buffer closed (λ t k i. apart t k) s h

-- The pointers of the inode are read by no slot of a file that does not reach so far.
pub place-set_indirect :
    (d : InodeDisk) (dev : Block) (b n : ℕ) (s : Slot)
    → n ≤ direct_blocks
    → live n s ≡ true
    → place (record d { indirect = b }) dev s ≡ place d dev s
place-set_indirect d dev b n (data_sector i) le h = ground arith
place-set_indirect d dev b n indirect_block le h = absurd (ground arith)
place-set_indirect d dev b n doubly_block le h = refl
place-set_indirect d dev b n (inner_block k) le h = refl

pub place-set_doubly :
    (d : InodeDisk) (dev : Block) (b n : ℕ) (s : Slot)
    → n ≤ indirect_end
    → live n s ≡ true
    → place (record d { doubly_indirect = b }) dev s ≡ place d dev s
place-set_doubly d dev b n (data_sector i) le h = ground arith
place-set_doubly d dev b n indirect_block le h = refl
place-set_doubly d dev b n doubly_block le h = absurd (ground arith)
place-set_doubly d dev b n (inner_block k) le h = absurd (ground arith)

pub place-set_length :
    (d : InodeDisk) (dev : Block) (n : ℕ) (s : Slot)
    → place (record d { length = n }) dev s ≡ place d dev s
place-set_length d dev n (data_sector i) = refl
place-set_length d dev n indirect_block = refl
place-set_length d dev n doubly_block = refl
place-set_length d dev n (inner_block k) = refl
