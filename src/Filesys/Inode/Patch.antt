-- ===== src/Filesys/Inode/Patch.antt =====
-- A chunk that inode_write_at of filesys/inode.c writes, and the bytes of the file after it.
use implso.Prelude.{
  ℕ, ◌+◌, ◌-◌, ◌/◌, ◌%◌, ◌≤◌, ◌<◌, ◌≡◌, refl, sym, ap, ◌∙◌, ◌≢◌, true, false, ◌&&◌, ◌||◌, arith,
  ltb, leb, ◌==◌, if◌then◌else◌, Bool-cases, inl, inr,
}
use implso.Prelude.Run.{Returns, returns}
use implso.Devices.Block.{Block, Sector, read-ok, write-ok, stored}
use implso.Filesys.Inode.{InodeDisk, State, bytes_to_sectors}
use implso.Filesys.Inode.Access.{is_full_sector, bounce_of, write_chunk}
use implso.Filesys.Inode.Frames.{is_index, place-stored_index, stored_self, stored-ne}
use implso.Filesys.Inode.Read.{IsChunk, content, content_in}
use implso.Filesys.Inode.Slots.{Slot, data_sector, place, live, live-IsClosed, IsLaidOut}

-- A sector with the bytes of a chunk in it.
abbrev pub IsPatched : (ofs c : ℕ) (buffer : ℕ → ℕ) (b : ℕ) (old new : Sector) → Type 0
IsPatched ofs c buffer b old new =
    (o : ℕ)
    → o < 512
    → new o ≡ (if leb ofs o && ltb o (ofs + c) then buffer (b + (o - ofs)) else old o)

-- The device after a write of one sector.
abbrev pub Patched : (dev : Block) (x ofs c : ℕ) (buffer : ℕ → ℕ) (b : ℕ) → Block → Type 0
Patched dev x ofs c buffer b dev' =
    (new : Sector) × (dev' ≡ stored dev x new) × IsPatched ofs c buffer b (dev.sectors x) new

pub write_chunk_lem :
    (dev : Block) (d : InodeDisk) (size x offset c b : ℕ) (buffer : ℕ → ℕ)
    → IsChunk d size offset c
    → x < dev.size
    → dev.foreign ≡ false
    → Returns (Patched dev x (offset % 512) c buffer b) (write_chunk true dev x offset c buffer b)
unfolding write_chunk is_full_sector bounce_of
write_chunk_lem dev d size x offset c b buffer k lt f =
    elim (Bool-cases (is_full_sector offset c)) [
      | inl full ↦
          rw (full, write-ok dev x (λ i. buffer (b + i)) lt f)
            (returns (_, refl, λ o h. ground arith))
      | inr partial ↦
          let r : (ltb 0 (offset % 512) || ltb c (512 - offset % 512)) ≡ true =
            ground (arith, k.in_sector) in
          rw (partial, r, read-ok dev x lt, write-ok dev x _ lt f)
            (returns (_, refl, λ o h. ground arith))
    ]

same_bytes :
    (buffer : ℕ → ℕ) (offset c b pos old : ℕ)
    → pos / 512 ≡ offset / 512
    → offset % 512 + c ≤ 512
    → (if leb (offset % 512) (pos % 512) && ltb (pos % 512) (offset % 512 + c)
        then buffer (b + (pos % 512 - offset % 512))
        else old)
      ≡ (if leb offset pos && ltb pos (offset + c) then buffer (b + (pos - offset)) else old)
same_bytes buffer offset c b pos old q h =
    let l : leb (offset % 512) (pos % 512) ≡ leb offset pos = ground arith in
    let r : ltb (pos % 512) (offset % 512 + c) ≡ ltb pos (offset + c) = ground arith in
    let e : leb offset pos ≡ true → pos % 512 - offset % 512 ≡ pos - offset = ground arith in
    ground (arith, l, r, e)

other_bytes :
    (buffer : ℕ → ℕ) (offset c b pos old : ℕ)
    → (pos / 512 == offset / 512) ≡ false
    → offset % 512 + c ≤ 512
    → old ≡ (if leb offset pos && ltb pos (offset + c) then buffer (b + (pos - offset)) else old)
other_bytes buffer offset c b pos old ne h =
    let e : (leb offset pos && ltb pos (offset + c)) ≡ false = ground arith in rw e

module _ (st : State) (layout : IsLaidOut (bytes_to_sectors st.inode.length) st) where
  -- A sector of the file is no index block.
  not_index :
      (i : ℕ) (s : Slot)
      → i < bytes_to_sectors st.inode.length
      → live (bytes_to_sectors st.inode.length) s ≡ true
      → is_index s ≡ true
      → place st.inode st.dev s ≢ place st.inode st.dev (data_sector i)
  not_index i s lt h index e =
      let q = layout.distinct s (data_sector i) h (ground arith) e in
      absurd (ground (arith, ap is_index q, index))

  pub store_places :
      (i : ℕ) (new : Sector) (s : Slot)
      → i < bytes_to_sectors st.inode.length
      → live (bytes_to_sectors st.inode.length) s ≡ true
      → place st.inode (stored st.dev (place st.inode st.dev (data_sector i)) new) s
        ≡ place st.inode st.dev s
  store_places i new s lt h =
      place-stored_index st.inode st.dev (place st.inode st.dev (data_sector i)) new
        (live-IsClosed (bytes_to_sectors st.inode.length)) (λ t k index. not_index i t lt k index) s
        h

  same_index :
      (i j : ℕ)
      → i < bytes_to_sectors st.inode.length
      → j < bytes_to_sectors st.inode.length
      → place st.inode st.dev (data_sector j) ≡ place st.inode st.dev (data_sector i)
      → j ≡ i
  same_index i j lt lt' e =
      data_sector_eq
        (layout.distinct (data_sector j) (data_sector i) (ground arith) (ground arith) e)
    where
      index_of : Slot → ℕ
      index_of (data_sector k) = k
      index_of _ = 0

      data_sector_eq : data_sector j ≡ data_sector i → j ≡ i
      data_sector_eq q = ap index_of q

  pub store_content :
      (size offset c b pos : ℕ) (buffer : ℕ → ℕ) (new : Sector)
      → IsChunk st.inode size offset c
      → IsPatched
          (offset % 512)
          c
          buffer
          b
          (st.dev.sectors (place st.inode st.dev (data_sector (offset / 512))))
          new
      → pos < st.inode.length
      → content
          (stored st.dev (place st.inode st.dev (data_sector (offset / 512))) new)
          st.inode
          pos
        ≡ (if leb offset pos && ltb pos (offset + c)
            then buffer (b + (pos - offset))
            else content st.dev st.inode pos)
  store_content size offset c b pos buffer new k patch lt =
      let x = place st.inode st.dev (data_sector (offset / 512)) in
      let y = place st.inode st.dev (data_sector (pos / 512)) in
      let at : offset / 512 < bytes_to_sectors st.inode.length =
        ground (arith, k.positive, k.in_file) in
      let there : pos / 512 < bytes_to_sectors st.inode.length = ground arith in
      let keep = store_places (offset / 512) new (data_sector (pos / 512)) at (ground arith) in
      ap (λ p. (stored st.dev x new).sectors p (pos % 512)) keep
      ∙ elim (Bool-cases (pos / 512 == offset / 512)) [
        | inl same ↦
            let q : pos / 512 ≡ offset / 512 = ground arith in
            ap
              (λ i.
                (stored st.dev x new).sectors (place st.inode st.dev (data_sector i)) (pos % 512))
              q
            ∙ ap (λ f. f (pos % 512)) (stored_self st.dev x new)
            ∙ patch (pos % 512) (omega arith)
            ∙ same_bytes buffer offset c b pos (st.dev.sectors x (pos % 512)) q k.in_sector
            ∙ ap
                (λ old.
                  if leb offset pos && ltb pos (offset + c)
                  then buffer (b + (pos - offset))
                  else old)
                (sym (content_in st.dev st.inode pos (offset / 512) (pos % 512) q refl))
        | inr other ↦
            let ne : y ≢ x =
              λ e. ground (arith, other, same_index (offset / 512) (pos / 512) at there e) in
            ap (λ f. f (pos % 512)) (stored-ne st.dev x y new ne)
            ∙ other_bytes buffer offset c b pos (content st.dev st.inode pos) other k.in_sector
      ]
