-- ===== src/Vm/Swap/Slots.antt =====
-- vm/swap.c: the pages in the slots.
use implso.Prelude.{
  ℕ, zero, suc, ◌+◌, ◌-◌, ◌*◌, ◌/◌, ◌%◌, ◌≤◌, ◌<◌, ◌≡◌, refl, sym, ap, ◌∙◌, ◌≢◌, true, false, ◌&&◌,
  ◌||◌, Option, none, some, arith, ltb, leb, ◌==◌, if◌then◌else◌, Bool-cases, inl, inr,
}
use implso.Prelude.Run
use implso.Prelude.Run.{Run, ok, ◌>>=◌, Returns, returns}
use implso.Devices.Block.{Block, stored, read-ok, write-ok}
use implso.Kernel.Bitmap.{Bitmap, bitmap_error, size, reset}
use implso.Kernel.Bitmap.Single.{IsValid, bit, Becomes, reset_lem}
use implso.Kernel.Bitmap.Scan.{Flipped, unchanged, flipped, scan_and_flip_lem}
use implso.Vm.Swap.{
  Frame, Swap, read_loop, read_from_block, write_loop, write_to_block, fill_slot, swap_out,
  swap_read_slot, swap_free_slot, slot_of,
}

-- The device holds a page for each slot.
pub record HasSlots (count : ℕ) (b : Block) : Type 0 where
  pub room : count * 8 ≤ b.size
  pub writable : b.foreign ≡ false

-- The byte at an offset of the page in a slot.
abbrev pub page : Block → ℕ → ℕ → ℕ
page b slot o = b.sectors (slot * 8 + o / 512) (o % 512)

read_branch :
    (b : Block) (dst : Frame) (index i o : ℕ)
    → (if leb ((i + 1) * 512) o
        then page b index o
        else if o / 512 == i
        then b.sectors (index * 8 + i) (o % 512)
        else dst o)
      ≡ (if leb (i * 512) o then page b index o else dst o)
read_branch b dst index i o = elim (Bool-cases (o / 512 == i)) [
  | inl here ↦
      let e : o / 512 ≡ i = ground arith in
      let past : leb ((i + 1) * 512) o ≡ false = ground arith in
      let reached : leb (i * 512) o ≡ true = ground arith in
      rw (past, reached, here) (ap (λ k. b.sectors (index * 8 + k) (o % 512)) (sym e))
  | inr elsewhere ↦
      let same : leb ((i + 1) * 512) o ≡ leb (i * 512) o = ground arith in rw (same, elsewhere) refl
]

pub read_loop_lem :
    (n i : ℕ) (b : Block) (dst : Frame) (index count : ℕ)
    → HasSlots count b
    → index < count
    → i + n ≡ 8
    → Returns
        (λ f. (o : ℕ) → o < 4096 → f o ≡ (if leb (i * 512) o then page b index o else dst o))
        (read_loop n i b dst index)
unfolding read_loop
read_loop_lem zero i b dst index count h lt e = returns (λ o small. ground arith)
read_loop_lem (suc n) i b dst index count h lt e =
    rw (read-ok b (index * 8 + i) (omega (arith, h.room))) (
      Run.mono (read_loop_lem n (i + 1) b _ index count h lt (omega arith))
        λ f p o small. p o small ∙ read_branch b dst index i o)

-- The pages after a write: that of the slot is the frame, and the others are as they were.
pub record Written (b : Block) (frame : Frame) (index count : ℕ) (b' : Block) : Type 0 where
  pub slots : HasSlots count b'
  pub filled : (o : ℕ) → o < 4096 → page b' index o ≡ frame o
  pub others : (j o : ℕ) → j ≢ index → o < 4096 → page b' j o ≡ page b j o

record Writing (n i : ℕ) (b : Block) (frame : Frame) (index count : ℕ) (b' : Block) : Type 0 where
  slots : HasSlots count b'
  sectors :
      (s o : ℕ)
      → b'.sectors s o ≡ (
          if leb (index * 8 + i) s && ltb s (index * 8 + i + n)
          then frame ((s - index * 8) * 512 + o)
          else b.sectors s o)

write_branch :
    (b : Block) (frame : Frame) (index i n s o : ℕ)
    → (if leb (index * 8 + (i + 1)) s && ltb s (index * 8 + (i + 1) + n)
        then frame ((s - index * 8) * 512 + o)
        else (if index * 8 + i == s then (λ x. frame (i * 512 + x)) else b.sectors s) o)
      ≡ (if leb (index * 8 + i) s && ltb s (index * 8 + i + suc n)
          then frame ((s - index * 8) * 512 + o)
          else b.sectors s o)
write_branch b frame index i n s o = elim (Bool-cases (index * 8 + i == s)) [
  | inl here ↦
      let e : s - index * 8 ≡ i = ground arith in
      let past : leb (index * 8 + (i + 1)) s ≡ false = ground arith in
      let in_range : (leb (index * 8 + i) s && ltb s (index * 8 + i + suc n)) ≡ true =
        ground arith in
      rw (past, in_range, here) (ap (λ k. frame (k * 512 + o)) (sym e))
  | inr elsewhere ↦
      let same : (leb (index * 8 + (i + 1)) s && ltb s (index * 8 + (i + 1) + n))
          ≡ (leb (index * 8 + i) s && ltb s (index * 8 + i + suc n)) =
        ground arith in
      rw (same, elsewhere) refl
]

write_loop_lem :
    (n i : ℕ) (b : Block) (frame : Frame) (index count : ℕ)
    → HasSlots count b
    → index < count
    → i + n ≡ 8
    → Returns (Writing n i b frame index count) (write_loop n i b frame index)
unfolding write_loop
write_loop_lem zero i b frame index count h lt e =
    returns (record { slots = h; sectors = λ s o. ground arith })
write_loop_lem (suc n) i b frame index count h lt e =
    let b1 = stored b (index * 8 + i) (λ o. frame (i * 512 + o)) in
    rw (write-ok b (index * 8 + i) (λ o. frame (i * 512 + o)) (omega (arith, h.room)) h.writable) (
      Run.mono
        (write_loop_lem n (i + 1) b1 frame index count
          (record { room = h.room; writable = h.writable }) lt (omega arith))
        λ b' w. record {
          slots = w.slots;
          sectors = λ s o. w.sectors s o ∙ write_branch b frame index i n s o;
        })

write_to_block_lem :
    (b : Block) (frame : Frame) (index count : ℕ)
    → HasSlots count b
    → index < count
    → Returns (Written b frame index count) (write_to_block b frame index)
unfolding write_to_block
write_to_block_lem b frame index count h lt =
    Run.mono (write_loop_lem 8 0 b frame index count h lt (omega arith)) λ b' w. record {
      slots = w.slots;
      filled = λ o small.
          w.sectors (index * 8 + o / 512) (o % 512)
          ∙ filled_branch o small (b.sectors (index * 8 + o / 512) (o % 512));
      others = λ j o ne small.
          w.sectors (j * 8 + o / 512) (o % 512)
          ∙ others_branch o j ne small (b.sectors (j * 8 + o / 512) (o % 512));
    }
  where
    filled_branch :
        (o : ℕ)
        → o < 4096
        → (old : ℕ)
        → (if leb (index * 8 + 0) (index * 8 + o / 512)
              && ltb (index * 8 + o / 512) (index * 8 + 0 + 8)
            then frame ((index * 8 + o / 512 - index * 8) * 512 + o % 512)
            else old)
          ≡ frame o
    filled_branch o small old =
        let within : (leb (index * 8 + 0) (index * 8 + o / 512)
              && ltb (index * 8 + o / 512) (index * 8 + 0 + 8))
            ≡ true =
          ground arith in
        let at : (index * 8 + o / 512 - index * 8) * 512 + o % 512 ≡ o = omega arith in
        rw (within, at) refl

    others_branch :
        (o j : ℕ)
        → j ≢ index
        → o < 4096
        → (old : ℕ)
        → (if leb (index * 8 + 0) (j * 8 + o / 512) && ltb (j * 8 + o / 512) (index * 8 + 0 + 8)
            then frame ((j * 8 + o / 512 - index * 8) * 512 + o % 512)
            else old)
          ≡ old
    others_branch o j ne small old =
        let outside : (leb (index * 8 + 0) (j * 8 + o / 512)
              && ltb (j * 8 + o / 512) (index * 8 + 0 + 8))
            ≡ false =
          ground arith in
        rw outside refl

-- The bitmap of the slots is valid, and the device holds their pages.
pub record IsSwap (b : Bitmap) (sw : Swap) : Type 0 where
  pub valid : IsValid b
  pub mounted : sw.slots ≡ some b
  pub slots : HasSlots b.bit_cnt sw.block

-- A frame that is read holds the page of the slot.
abbrev pub IsPage : Swap → ℕ → Option Frame → Type 0
IsPage sw index r = (f : Frame) × (r ≡ some f) × ((o : ℕ) → o < 4096 → f o ≡ page sw.block index o)

pub usable_slot :
    (b : Bitmap) (sw : Swap) (index : ℕ)
    → IsSwap b sw
    → index < b.bit_cnt
    → slot_of sw.slots index ≡ some b
unfolding slot_of size
usable_slot b sw index v lt =
    let usable : ((index == bitmap_error) || leb b.bit_cnt index) ≡ false =
      ground (arith, v.valid.fits) in
    ap (λ o. slot_of o index) v.mounted ∙ rw usable refl

-- On a swap device with a valid bitmap of slots, swap_read_slot of a slot within the bitmap does
-- not panic, and reads the page of the slot.
pub swap_read_slot_lem :
    (b : Bitmap) (sw : Swap) (index : ℕ) (dst : Frame)
    → IsSwap b sw
    → index < b.bit_cnt
    → Returns (IsPage sw index) (swap_read_slot index dst sw)
unfolding swap_read_slot read_from_block
swap_read_slot_lem b sw index dst v lt =
    let chosen = usable_slot b sw index v lt in
    rw (swap_read_slot, chosen)
      (Run.bind (read_loop_lem 8 0 sw.block dst index b.bit_cnt v.slots lt (omega arith))
        λ f p. returns (f, refl, λ o small. p o small ∙ ground arith))

-- The outcomes of the swap of a frame: no slot is free, or the slot `index`, which was free, is
-- taken and holds the frame, and the other slots have their pages.
pub data SwappedOut (frame : Frame) (b : Bitmap) (sw : Swap) : Option ℕ × Swap → Type 0 where
  full : ((j : ℕ) → j < b.bit_cnt → bit b j ≢ false) → SwappedOut frame b sw (none, sw)
  stored_at :
      (index : ℕ) (b' : Bitmap) (sw' : Swap)
      → index < b.bit_cnt
      → bit b index ≡ false
      → Becomes b (λ j. if index == j then true else bit b j) b'
      → IsSwap b' sw'
      → ((o : ℕ) → o < 4096 → page sw'.block index o ≡ frame o)
      → ((j o : ℕ) → j ≢ index → o < 4096 → page sw'.block j o ≡ page sw.block j o)
      → SwappedOut frame b sw (some index, sw')

fill_slot_lem :
    (frame : Frame) (b : Bitmap) (sw : Swap) (r : ℕ × Bitmap)
    → IsSwap b sw
    → Flipped b false 0 1 r
    → Returns (SwappedOut frame b sw) (fill_slot frame sw r)
fill_slot_lem frame b sw r v (unchanged nowhere) = returns (
    full λ j lt free.
      nowhere j (omega arith) (omega arith)
        (λ k lo hi. let e : k ≡ j = omega arith in ap (bit b) e ∙ free))
fill_slot_lem frame b sw r v (flipped i b' lo fits all_free earlier becomes) =
    let small : (i == bitmap_error) ≡ false = ground (arith, v.valid.fits) in
    rw small (
      Run.bind (write_to_block_lem sw.block frame i b.bit_cnt v.slots (omega arith)) λ block' w.
        returns (
          stored_at i b' _ (omega arith) (all_free i (omega arith) (omega arith))
            (record {
              valid = becomes.valid;
              sized = becomes.sized;
              bits = λ j. becomes.bits j ∙ ground arith;
            })
            (record { valid = becomes.valid; mounted = refl; slots = rw becomes.sized w.slots })
            w.filled w.others))

-- On a swap device with a valid bitmap of slots, the part of swap_evict_frame that takes a slot and
-- writes the frame does not panic. It gives up if no slot is free; otherwise it takes one that was
-- free and no other, the page of the slot is the frame, and the pages of the other slots are as
-- they were.
pub swap_out_lem :
    (frame : Frame) (b : Bitmap) (sw : Swap)
    → IsSwap b sw
    → Returns (SwappedOut frame b sw) (swap_out frame b sw)
unfolding swap_out
swap_out_lem frame b sw v =
    Run.bind (scan_and_flip_lem b v.valid 0 1 false (omega arith))
      λ r f. fill_slot_lem frame b sw r v f

-- Giving up, or a slot from which the frame is read back.
pub data ReadsBack (frame dst : Frame) : Option ℕ × Swap → Type 0 where
  gave_up : (sw : Swap) → ReadsBack frame dst (none, sw)
  reads :
      (index : ℕ) (sw : Swap)
      → Returns
          (λ r. (f : Frame) × (r ≡ some f) × ((o : ℕ) → o < 4096 → f o ≡ frame o))
          (swap_read_slot index dst sw)
      → ReadsBack frame dst (some index, sw)

reads_back :
    (frame dst : Frame) (b : Bitmap) (sw : Swap) (r : Option ℕ × Swap)
    → SwappedOut frame b sw r
    → ReadsBack frame dst r
reads_back frame dst b sw r (full none_free) = gave_up sw
reads_back frame dst b sw r (stored_at index b' sw' lt was becomes v filled others) =
    reads index sw' (
      Run.mono (swap_read_slot_lem b' sw' index dst v (omega (arith, becomes.sized)))
        λ o (f, e, same). (f, e, λ k small. same k small ∙ filled k small))

-- On a swap device with a valid bitmap of slots, the part of swap_evict_frame that takes a slot and
-- writes the frame does not panic; unless it gives up, swap_read_slot of the slot it takes reads
-- the bytes of the frame.
pub swap_out-swap_read_slot :
    (frame dst : Frame) (b : Bitmap) (sw : Swap)
    → IsSwap b sw
    → Returns (ReadsBack frame dst) (swap_out frame b sw)
swap_out-swap_read_slot frame dst b sw v =
    Run.mono (swap_out_lem frame b sw v) λ r s. reads_back frame dst b sw r s

-- On a swap device with a valid bitmap of slots, swap_free_slot of a slot within the bitmap frees
-- this slot and no other.
pub swap_free_slot_lem :
    (b : Bitmap) (sw : Swap) (index : ℕ)
    → IsSwap b sw
    → index < b.bit_cnt
    → (b' : Bitmap) × IsSwap b' (swap_free_slot index sw)
      × Becomes b (λ j. if index == j then false else bit b j) b'
unfolding swap_free_slot
swap_free_slot_lem b sw index v lt =
    let becomes = reset_lem b index v.valid lt in
    rw (swap_free_slot, usable_slot b sw index v lt)
      (
        reset b index,
        record {
          valid = becomes.valid;
          mounted = refl;
          slots = record { room = rw becomes.sized v.slots.room; writable = v.slots.writable };
        },
        becomes,
      )
