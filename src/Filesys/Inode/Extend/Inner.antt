-- ===== src/Filesys/Inode/Extend/Inner.antt =====
-- The blocks of the second level in inode_extend, and their entries.
use implso.Prelude.{
  ℕ, ◌+◌, ◌-◌, ◌/◌, ◌%◌, ◌^◌, ◌≤◌, ◌<◌, ◌≡◌, refl, ap, sym, ◌∙◌, ◌≢◌, ◌⊎◌, inl, inr, Bool, true,
  false, ◌==◌, arith, Bool-cases, lt→ltb,
}
use implso.Prelude.Run.{Returns, returns}
use implso.Devices.Block.{Sector, stored, get_word, put_word, read-ok, write-ok}
use implso.Filesys.Inode.{State, ptrs_per_sector}
use implso.Filesys.Inode.Slots.{
  Slot, data_sector, indirect_block, doubly_block, inner_block, indirect_end, max_sectors, plus,
  place, live,
}
use implso.Filesys.Inode.Frames.{
  place-eq, place-inner, stored-ne, SameWord-stored, SameWord-put, get_word-put,
}
use implso.Filesys.Inode.Extend.{put_inner}
use implso.Filesys.Inode.Extend.Take.{Around}
use implso.Filesys.Inode.Extend.Grow.{Ready, Outcome, done, Change, grow-Stage, grow-Keeps}
use implso.Filesys.Inode.Extend.Direct.{Grown, data-IsClosed, Stage-next}

-- The set of slots once the doubly indirect block is there, and once the block for sector `n` is.
abbrev pub with_doubly : ℕ → Slot → Bool
with_doubly n = plus (live n) doubly_block

abbrev pub outer_idx : ℕ → ℕ
outer_idx n = (n - indirect_end) / ptrs_per_sector

abbrev pub inner_idx : ℕ → ℕ
inner_idx n = (n - indirect_end) % ptrs_per_sector

abbrev pub with_inner : ℕ → Slot → Bool
with_inner n = plus (with_doubly n) (inner_block (outer_idx n))

-- An inner block that is reached from a data sector of the file is in its layout.
pub reaches :
    (n i : ℕ)
    → i < n
    → indirect_end ≤ i
    → live n (inner_block ((i - indirect_end) / ptrs_per_sector)) ≡ true
reaches n i lt far = ground arith

pub inner_block-ne : (k j : ℕ) → (k == j) ≡ false → inner_block k ≢ inner_block j
inner_block-ne k j h e = ground arith

module _ {env : Around} {n a : ℕ} {start st : State} (r : Ready env (with_inner n) n a start st)
    (lo : indirect_end ≤ n) where
  open r use {stage, holds, keeps}
  open stage use {mounted, layout}

  abbrev x : ℕ
  x = place st.inode st.dev (inner_block (outer_idx n))

  abbrev buf : Sector
  buf = put_word (st.dev.sectors x) (inner_idx n) a

  has_inner : with_inner n (inner_block (outer_idx n)) ≡ true
  has_inner = ground arith

  in_dev : x < st.dev.size
  in_dev = layout.within (inner_block (outer_idx n)) has_inner

  small : a < 2 ^ 32
  small = omega (arith, holds.within, mounted.sized, mounted.valid.fits)

  -- The block of the second level is no other slot of the set.
  apart :
      (s : Slot)
      → with_inner n s ≡ true
      → s ≢ inner_block (outer_idx n)
      → place st.inode st.dev s ≢ x
  apart s h ne e = ne (layout.distinct s (inner_block (outer_idx n)) h has_inner e)

  -- Another entry, or an entry of another block.
  other_entry :
      (i : ℕ)
      → i < n
      → indirect_end ≤ i
      → (place st.inode st.dev (inner_block ((i - indirect_end) / ptrs_per_sector)) ≢ x)
        ⊎ (inner_idx n ≢ (i - indirect_end) % ptrs_per_sector)
  other_entry i lt far = elim (Bool-cases ((i - indirect_end) / ptrs_per_sector == outer_idx n)) [
    | inl e ↦ inr (ground arith)
    | inr ne ↦ inl (apart (inner_block _) (rw (reaches n i lt far)) (inner_block-ne _ _ ne))
  ]

  same :
      (s : Slot)
      → with_inner n s ≡ true
      → place st.inode (stored st.dev x buf) s ≡ place st.inode st.dev s
  same (data_sector i) h =
      let lt : i < n = ground arith in
      place-eq st.inode st.dev (stored st.dev x buf) (data_sector i) (
        λ lo' hi'. SameWord-stored st.dev x _ buf _ (apart indirect_block (ground arith) (λ e. cc)),
        λ far. SameWord-stored st.dev x _ buf _ (apart doubly_block (ground arith) (λ e. cc)),
        λ far. SameWord-put st.dev x (inner_idx n) a _ _ small (other_entry i lt far),
      )
  same indirect_block h = refl
  same doubly_block h = refl
  same (inner_block k) h =
      SameWord-stored st.dev x _ buf _ (apart doubly_block (ground arith) (λ e. cc))

  at_a : place st.inode (stored st.dev x buf) (data_sector n) ≡ a
  at_a =
      place-inner st.inode (stored st.dev x buf) n lo
      ∙ ap (λ y. get_word ((stored st.dev x buf).sectors y) (inner_idx n))
          (same (inner_block (outer_idx n)) has_inner)
      ∙ get_word-put st.dev x (inner_idx n) a small

  change : Change (with_inner n) n st (data_sector n) st.inode (stored st.dev x buf)
  change = record {
    sized = refl;
    writable = refl;
    header = (refl, refl, refl);
    closes = data-IsClosed n (λ lo' hi. absurd (omega arith)) (λ lo'. has_inner);
    same = same;
    outside =
        λ y no. stored-ne st.dev x y buf (λ e. no (inner_block (outer_idx n)) has_inner (sym e));
    contents = λ i h. stored-ne st.dev x _ buf (apart (data_sector i) (ground arith) (λ e. cc));
  }

  cover : (s : Slot) → live (n + 1) s ≡ true → plus (with_inner n) (data_sector n) s ≡ true
  cover (data_sector i) h = ground arith
  cover indirect_block h = ground arith
  cover doubly_block h = ground arith
  cover (inner_block k) h = ground arith

  -- The entry of the block of the second level; `outer` is the array that the code has at hand.
  pub put_inner_lem :
      (outer : Sector)
      → get_word outer (outer_idx n) ≡ x
      → n < max_sectors
      → Returns
          (Outcome env n start (Grown env n start))
          (put_inner a (outer_idx n) (inner_idx n) outer st)
  unfolding put_inner
  put_inner_lem outer e hi =
      rw
        (
          lt→ltb (outer_idx n) 128 (omega arith),
          e,
          read-ok st.dev x in_dev,
          lt→ltb (inner_idx n) 128 (omega arith),
          write-ok st.dev x buf in_dev mounted.writable,
        )
        (returns (
          done _ (record {
            stage = Stage-next cover (grow-Stage stage change a holds at_a);
            keeps = grow-Keeps stage change keeps;
            blank =
                ap (stored st.dev x buf).sectors at_a
                ∙ stored-ne st.dev x a buf
                    (λ e. holds.apart (inner_block (outer_idx n)) has_inner (sym e))
                ∙ holds.blank;
          })))
