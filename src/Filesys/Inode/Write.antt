-- ===== src/Filesys/Inode/Write.antt =====
-- inode_write_at of filesys/inode.c within the length of a file.
use implso.Prelude.{
  ℕ, zero, suc, ◌+◌, ◌-◌, ◌/◌, ◌%◌, ◌≤◌, ◌<◌, ◌≡◌, refl, sym, ap, ◌∙◌, ◌≢◌, true, false, ◌&&◌,
  arith, ltb, leb, ◌==◌, if◌then◌else◌, Bool-cases, inl, inr,
}
use implso.Prelude.Run
use implso.Prelude.Run.{Run, ok, Returns, returns}
use implso.Devices.Block.{Block, Sector, stored}
use implso.Filesys.FreeMap.{FreeMap, MapFile}
use implso.Filesys.Inode.{InodeDisk, State, bytes_to_sectors}
use implso.Filesys.Inode.Access.{chunk_size, write_loop, write_data, write_at, grow, read_at}
use implso.Filesys.Inode.Locate.{byte_to_sector_lem}
use implso.Filesys.Inode.Frames.{stored-ne}
use implso.Filesys.Inode.Read.{IsChunk, chunk_size-IsChunk, content, read_at_lem}
use implso.Filesys.Inode.Slots.{Slot, data_sector, place, live, max_sectors, IsLaidOut, Layout-keep}
use implso.Filesys.Inode.Patch.{IsPatched, write_chunk_lem, store_places, store_content}

-- What a write promises: the file has the bytes of the buffer, and nothing else of it has changed.
pub record HasWritten (d : InodeDisk) (b size offset : ℕ) (buffer : ℕ → ℕ) (dev : Block)
    (r : ℕ × Block) : Type 0 where
  pub amount : r.0 ≡ b + size
  pub places :
      (s : Slot) → live (bytes_to_sectors d.length) s ≡ true → place d r.1 s ≡ place d dev s
  pub header : (r.1.size ≡ dev.size) × (r.1.foreign ≡ dev.foreign)
  pub bytes :
      (pos : ℕ)
      → pos < d.length
      → content r.1 d pos ≡ (
          if leb offset pos && ltb pos (offset + size)
          then buffer (b + (pos - offset))
          else content dev d pos)
  pub others :
      (x : ℕ)
      → ((i : ℕ) → i < bytes_to_sectors d.length → place d dev (data_sector i) ≢ x)
      → r.1.sectors x ≡ dev.sectors x

-- The bytes of two writes, one behind the other.
glue :
    (buffer : ℕ → ℕ) (size offset c b pos last middle first : ℕ)
    → c ≤ size
    → last ≡ (
        if leb (offset + c) pos && ltb pos (offset + c + (size - c))
        then buffer (b + c + (pos - (offset + c)))
        else middle)
    → middle
      ≡ (if leb offset pos && ltb pos (offset + c) then buffer (b + (pos - offset)) else first)
    → last
      ≡ (if leb offset pos && ltb pos (offset + size) then buffer (b + (pos - offset)) else first)
glue buffer size offset c b pos last middle first le e f =
    elim (Bool-cases (leb (offset + c) pos)) [
      | inl later ↦
          let q : b + c + (pos - (offset + c)) ≡ b + (pos - offset) = ground arith in
          let t : ltb pos (offset + c + (size - c)) ≡ ltb pos (offset + size) = ground arith in
          ground (arith, e, f, q, t, later)
      | inr now ↦ ground (arith, e, f, now)
    ]

module _ (d : InodeDisk) (fits : bytes_to_sectors d.length ≤ max_sectors) where
  -- The state of a device with the file.
  abbrev Holds : Block → Type 0
  Holds dev =
      (free : FreeMap) × IsLaidOut (bytes_to_sectors d.length)
        (record { inode = d; free = free; dev = dev })

  advance :
      {dev : Block} {b : ℕ} {buffer : ℕ → ℕ} {r : ℕ × Block} (size offset c : ℕ) (new : Sector)
      → Holds dev
      → IsChunk d size offset c
      → IsPatched
          (offset % 512)
          c
          buffer
          b
          (dev.sectors (place d dev (data_sector (offset / 512))))
          new
      → HasWritten d
          (b + c)
          (size - c)
          (offset + c)
          buffer
          (stored dev (place d dev (data_sector (offset / 512))) new)
          r
      → HasWritten d b size offset buffer dev r
  advance {dev} {b} {buffer} {r} size offset c new (free, layout) k patch p =
      let st : State = record { inode = d; free = free; dev = dev } in
      let at : offset / 512 < bytes_to_sectors d.length = ground (arith, k.positive, k.in_file) in
      record {
        amount = ground (arith, p.amount, k.asked);
        places = λ s h. p.places s h ∙ store_places st layout (offset / 512) new s at h;
        header = p.header;
        bytes = λ pos lt.
            glue buffer size offset c b pos _ _ _ k.asked (p.bytes pos lt)
              (store_content st layout size offset c b pos buffer new k patch lt);
        others = λ x apart.
            p.others x (λ i lt e. apart i lt (
              sym (store_places st layout (offset / 512) new (data_sector i) at (ground arith))
              ∙ e))
            ∙ stored-ne dev _ x new (λ e. apart (offset / 512) at (sym e));
      }

  write_loop_lem :
      (fuel size offset b : ℕ) (buffer : ℕ → ℕ) (dev : Block)
      → Holds dev
      → dev.foreign ≡ false
      → offset + size ≤ d.length
      → size ≤ fuel
      → Returns
          (HasWritten d b size offset buffer dev)
          (write_loop true fuel d buffer size offset b dev)
  unfolding write_loop
  write_loop_lem fuel zero offset b buffer dev l f inside h = returns (record {
    amount = omega arith;
    places = λ s i. refl;
    header = (refl, refl);
    bytes = λ pos lt. ground arith;
    others = λ x apart. refl;
  })
  write_loop_lem zero (suc size) offset b buffer dev l f inside h = absurd (omega arith)
  write_loop_lem (suc fuel) (suc size) offset b buffer dev (free, layout) f inside h =
      let st : State = record { inode = d; free = free; dev = dev } in
      let lt : offset < d.length = omega arith in
      let k = chunk_size-IsChunk d (suc size) offset (omega arith) lt in
      let c = chunk_size d (suc size) offset in
      let n : (c == 0) ≡ false = ground (arith, k.positive) in
      let at : offset / 512 < bytes_to_sectors d.length = ground arith in
      rw (write_loop, byte_to_sector_lem st layout fits offset lt, n)
        (Run.bind
          (write_chunk_lem dev d (suc size) (place d dev (data_sector (offset / 512))) offset c b
            buffer k (layout.within (data_sector (offset / 512)) (ground arith)) f)
          (λ dev' (new, q, patch). rw q (
            Run.mono
              (write_loop_lem fuel (suc size - c) (offset + c) (b + c) buffer
                (stored dev (place d dev (data_sector (offset / 512))) new)
                (
                  free,
                  Layout-keep layout (λ s i m. m)
                      (λ s i. store_places st layout (offset / 512) new s at i) (λ s i. i),
                )
                f (omega (arith, k.asked)) (omega (arith, k.positive)))
              (λ r p. advance (suc size) offset c new (free, layout) k patch p))))

minus_plus : (offset i : ℕ) → 0 + (offset + (i - 0) - offset) ≡ i
minus_plus offset i = omega arith

-- The bytes that the loops leave, where the whole of a request is within the length.
module _ (disk : MapFile) (sector : ℕ) (st : State) (buffer : ℕ → ℕ) (size offset : ℕ)
    (layout : IsLaidOut (bytes_to_sectors st.inode.length) st)
    (fits : bytes_to_sectors st.inode.length ≤ max_sectors) (writable : st.dev.foreign ≡ false)
    (inside : offset + size ≤ st.inode.length) where
  -- The state after the write: the inode and the free map are as they were.
  pub record Wrote (r : ℕ × State) : Type 0 where
    pub header : (r.1.inode ≡ st.inode) × (r.1.free ≡ st.free)
    pub written : HasWritten st.inode 0 size offset buffer st.dev (r.0, r.1.dev)

  -- On a writable device and a file that is laid out, with the memory for the bounce buffer,
  -- inode_write_at of a request that lies within the length, while writes are not denied, does not
  -- panic and writes all of it. The bytes of the file in the range are those of the buffer and the
  -- others as they were; the inode, the free map and the sectors that hold no byte of the file have
  -- not changed.
  pub write_at_lem : Returns Wrote (write_at true disk sector 0 buffer size offset st)
  unfolding write_at grow write_data
  write_at_lem =
      let short : ltb st.inode.length (offset + size) ≡ false = ground arith in
      rw short (
        Run.bind
          (write_loop_lem st.inode fits size size offset 0 buffer st.dev (st.free, layout) writable
            inside (omega arith))
          (λ r p. returns (record { header = (refl, refl); written = p })))

  -- The bytes that are read back.
  abbrev pub ReadsBack : (ℕ × State) → Type 0
  ReadsBack w =
      (target : ℕ → ℕ)
      → Returns (λ r. (r.0 ≡ size) × ((i : ℕ) → i < size → r.1 i ≡ buffer i))
          (read_at true w.1.dev w.1.inode target size offset)

  read_back : (w : ℕ × State) → Wrote w → ReadsBack w
  read_back w k target =
      let p = k.written in
      let after : State = record { inode = st.inode; free = st.free; dev = w.1.dev } in
      let layout' : IsLaidOut (bytes_to_sectors st.inode.length) after =
        rw p.header.0 (Layout-keep layout (λ s i m. m) p.places (λ s i. i)) in
      rw k.header.0 (
        Run.mono (read_at_lem after layout' fits target size offset) (λ r q. (
          ground (arith, q.amount, inside),
          λ i lt.
              q.bytes i (omega arith) (ground (arith, q.amount, inside))
              ∙ p.bytes (offset + (i - 0)) (omega arith)
              ∙ ground (arith, lt, ap buffer (minus_plus offset i)),
        )))

  -- On a writable device and a file that is laid out, with the memory for the bounce buffer,
  -- inode_write_at of a request that lies within the length, while writes are not denied, does not
  -- panic. inode_read_at of the same range then reads all the bytes that were written.
  pub write_at-read_at : Returns ReadsBack (write_at true disk sector 0 buffer size offset st)
  write_at-read_at = Run.mono write_at_lem read_back
