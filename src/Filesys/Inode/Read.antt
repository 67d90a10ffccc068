-- ===== src/Filesys/Inode/Read.antt =====
-- inode_read_at of filesys/inode.c: a file as the sequence of its bytes.
use implso.Prelude.{
  ℕ, zero, suc, ◌+◌, ◌-◌, ◌/◌, ◌%◌, ◌≤◌, ◌<◌, ◌≡◌, refl, ap, ◌∙◌, true, false, arith, ltb, leb,
  ◌==◌, Bool-cases, inl, inr,
}
use implso.Prelude.Run
use implso.Prelude.Run.{Run, ok, Returns, returns}
use implso.Devices.Block.{Block, read-ok}
use implso.Filesys.Inode.{InodeDisk, State, bytes_to_sectors}
use implso.Filesys.Inode.Access.{copy, lesser, chunk_size, read_loop, read_at}
use implso.Filesys.Inode.Locate.{byte_to_sector_lem, byte_to_sector_past}
use implso.Filesys.Inode.Slots.{data_sector, place, max_sectors, IsLaidOut}

-- The byte of a file at a position.
abbrev pub content : Block → InodeDisk → ℕ → ℕ
content dev d pos = dev.sectors (place d dev (data_sector (pos / 512))) (pos % 512)

-- A chunk lies within what is asked for, within the file and within a sector.
pub record IsChunk (d : InodeDisk) (size offset c : ℕ) : Type 0 where
  pub positive : 0 < c
  pub asked : c ≤ size
  pub in_file : offset + c ≤ d.length
  pub in_sector : offset % 512 + c ≤ 512

pub chunk_size-IsChunk :
    (d : InodeDisk) (size offset : ℕ)
    → 0 < size
    → offset < d.length
    → IsChunk d size offset (chunk_size d size offset)
unfolding chunk_size
chunk_size-IsChunk d size offset p lt = record {
  positive = ground arith;
  asked = ground arith;
  in_file = ground arith;
  in_sector = ground arith;
}

pub chunk_size_past :
    (d : InodeDisk) (size offset : ℕ) → d.length ≤ offset → chunk_size d size offset ≡ 0
unfolding chunk_size
chunk_size_past d size offset le = ground arith

-- The byte at an offset of a sector of the file.
pub content_in :
    (dev : Block) (d : InodeDisk) (pos i o : ℕ)
    → pos / 512 ≡ i
    → pos % 512 ≡ o
    → content dev d pos ≡ dev.sectors (place d dev (data_sector i)) o
content_in dev d pos i o q m =
    ap (λ k. dev.sectors (place d dev (data_sector k)) (pos % 512)) q
    ∙ ap (λ k. dev.sectors (place d dev (data_sector i)) k) m

module _ (st : State) (layout : IsLaidOut (bytes_to_sectors st.inode.length) st)
    (fits : bytes_to_sectors st.inode.length ≤ max_sectors) where
  -- The bytes that a loop reads to `b` and behind it in a buffer.
  pub record HasRead (b size offset : ℕ) (buffer : ℕ → ℕ) (r : ℕ × (ℕ → ℕ)) : Type 0 where
    pub amount : r.0 ≡ b + lesser size (st.inode.length - offset)
    pub bytes : (i : ℕ) → b ≤ i → i < r.0 → r.1 i ≡ content st.dev st.inode (offset + (i - b))
    pub before : (i : ℕ) → i < b → r.1 i ≡ buffer i
    pub behind : (i : ℕ) → r.0 ≤ i → r.1 i ≡ buffer i

  sector_lt :
      (offset : ℕ)
      → offset < st.inode.length
      → place st.inode st.dev (data_sector (offset / 512)) < st.dev.size
  sector_lt offset lt = layout.within (data_sector (offset / 512)) (ground arith)

  -- A round: the chunk is read, and then the rest.
  advance :
      {b : ℕ} {buffer : ℕ → ℕ} {r : ℕ × (ℕ → ℕ)} (size offset c : ℕ)
      → IsChunk st.inode size offset c
      → HasRead
          (b + c)
          (size - c)
          (offset + c)
          (copy buffer b
            (st.dev.sectors (place st.inode st.dev (data_sector (offset / 512))))
            (offset % 512)
            c)
          r
      → HasRead b size offset buffer r
  advance {b} {buffer} {r} size offset c k p = record {
    amount = ground (arith, p.amount, k.asked, k.in_file);
    bytes = λ i le lt. elim (Bool-cases (ltb i (b + c))) [
      | inl now ↦
          let q : (offset + (i - b)) / 512 ≡ offset / 512 = ground (arith, k.in_sector) in
          let m : (offset + (i - b)) % 512 ≡ offset % 512 + (i - b) = ground (arith, k.in_sector) in
          p.before i (ground arith)
          ∙ ground (
            arith,
            now,
            content_in st.dev st.inode (offset + (i - b)) (offset / 512) (offset % 512 + (i - b)) q
                m,
            le,
          )
      | inr later ↦
          let j : offset + c + (i - (b + c)) ≡ offset + (i - b) = ground arith in
          rw j at (p.bytes i (ground arith) lt)
    ];
    before = λ i lt. ground (arith, p.before i, k.positive);
    behind = λ i le. ground (arith, p.behind i, p.amount);
  }

  read_loop_lem :
      (fuel size offset b : ℕ) (buffer : ℕ → ℕ)
      → size ≤ fuel
      → Returns
          (HasRead b size offset buffer)
          (read_loop true fuel st.dev st.inode size offset b buffer)
  unfolding read_loop
  read_loop_lem fuel zero offset b buffer h = returns (record {
    amount = ground arith;
    bytes = λ i le lt. absurd (omega arith);
    before = λ i lt. refl;
    behind = λ i le. refl;
  })
  read_loop_lem zero (suc size) offset b buffer h = absurd (omega arith)
  read_loop_lem (suc fuel) (suc size) offset b buffer h =
      elim (Bool-cases (leb st.inode.length offset)) [
        | inl past ↦
            rw
              (
                read_loop,
                byte_to_sector_past st.dev st.inode offset (ground arith),
                chunk_size_past st.inode (suc size) offset (ground arith),
              )
              (returns (record {
                amount = ground arith;
                bytes = λ i le lt. absurd (omega arith);
                before = λ i lt. refl;
                behind = λ i le. refl;
              }))
        | inr inside ↦
            let lt : offset < st.inode.length = ground arith in
            let c = chunk_size-IsChunk st.inode (suc size) offset (omega arith) lt in
            let n : (chunk_size st.inode (suc size) offset == 0) ≡ false =
              ground (arith, c.positive) in
            rw
              (
                read_loop,
                byte_to_sector_lem st layout fits offset lt,
                n,
                read-ok st.dev _ (sector_lt offset lt),
              )
              (Run.mono
                (read_loop_lem fuel (suc size - chunk_size st.inode (suc size) offset) _ _ _
                  (omega (arith, c.positive)))
                (λ r p. advance (suc size) offset (chunk_size st.inode (suc size) offset) c p))
      ]

  -- For a file that is laid out, with the memory for the bounce buffer, inode_read_at does not
  -- panic. It reads as many bytes as are asked for and lie before the end of the file, these are
  -- the bytes of the file from the offset on, and the rest of the buffer is as it was.
  pub read_at_lem :
      (buffer : ℕ → ℕ) (size offset : ℕ)
      → Returns (HasRead 0 size offset buffer) (read_at true st.dev st.inode buffer size offset)
  unfolding read_at
  read_at_lem buffer size offset = read_loop_lem size size offset 0 buffer (omega arith)
