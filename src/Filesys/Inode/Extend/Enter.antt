-- ===== src/Filesys/Inode/Extend/Enter.antt =====
-- A new block of the second level in inode_extend.
use implso.Prelude.{ℕ, ◌^◌, ◌≤◌, ◌<◌, ◌≡◌, refl, ap, sym, ◌∙◌, ◌≢◌, inr, true, some, arith, lt→ltb}
use implso.Prelude.Run.{Returns}
use implso.Devices.Block.{Sector, stored, get_word, put_word, write-ok}
use implso.Filesys.Inode.{State}
use implso.Filesys.Inode.Slots.{
  Slot, data_sector, indirect_block, doubly_block, inner_block, indirect_end, max_sectors, place,
}
use implso.Filesys.Inode.Frames.{
  place-eq, stored-ne, stored_self, SameWord-stored, SameWord-put, get_word-put,
}
use implso.Filesys.Inode.Extend.{set_inner}
use implso.Filesys.Inode.Extend.Take.{Around, Holds}
use implso.Filesys.Inode.Extend.Grow.{
  plus-IsClosed, Ready, Outcome, Change, grow-Stage, grow-Keeps, grow-Holds,
}
use implso.Filesys.Inode.Extend.Direct.{Grown}
use implso.Filesys.Inode.Extend.Inner.{
  with_doubly, with_inner, outer_idx, inner_idx, reaches, put_inner_lem,
}

module _ {env : Around} {n a b : ℕ} {start st : State} (r : Ready env (with_doubly n) n a start st)
    (held : Holds env (with_doubly n) b st) (ne : a ≢ b) (lo : indirect_end ≤ n)
    (first : inner_idx n ≡ 0) where
  open r use {stage, holds, keeps}
  open stage use {mounted, layout}

  abbrev x : ℕ
  x = st.inode.doubly_indirect

  abbrev buf : Sector
  buf = put_word (st.dev.sectors x) (outer_idx n) b

  has_doubly : with_doubly n doubly_block ≡ true
  has_doubly = ground arith

  in_dev : x < st.dev.size
  in_dev = layout.within doubly_block has_doubly

  small : b < 2 ^ 32
  small = omega (arith, held.within, mounted.sized, mounted.valid.fits)

  apart : (s : Slot) → with_doubly n s ≡ true → s ≢ doubly_block → place st.inode st.dev s ≢ x
  apart s h is_other e = is_other (layout.distinct s doubly_block h has_doubly e)

  same :
      (s : Slot)
      → with_doubly n s ≡ true
      → place st.inode (stored st.dev x buf) s ≡ place st.inode st.dev s
  same (data_sector i) h =
      let lt : i < n = ground arith in
      place-eq st.inode st.dev (stored st.dev x buf) (data_sector i) (
        λ lo' hi'. SameWord-stored st.dev x _ buf _ (apart indirect_block (ground arith) (λ e. cc)),
        λ far. SameWord-put st.dev x (outer_idx n) b x _ small (inr (λ e. absurd (omega arith))),
        λ far.
            SameWord-stored st.dev x _ buf _
              (apart (inner_block _) (rw (reaches n i lt far)) (λ e. cc)),
      )
  same indirect_block h = refl
  same doubly_block h = refl
  same (inner_block k) h =
      SameWord-put st.dev x (outer_idx n) b x k small (inr (λ e. absurd (ground arith)))

  at_b : place st.inode (stored st.dev x buf) (inner_block (outer_idx n)) ≡ b
  at_b = get_word-put st.dev x (outer_idx n) b small

  change : Change (with_doubly n) n st (inner_block (outer_idx n)) st.inode (stored st.dev x buf)
  change = record {
    sized = refl;
    writable = refl;
    header = (refl, refl, refl);
    closes = λ c. plus-IsClosed (inner_block (outer_idx n)) (λ i. refl) (λ k e. has_doubly) c;
    same = same;
    outside = λ y no. stored-ne st.dev x y buf (λ e. no doubly_block has_doubly (sym e));
    contents = λ i h. stored-ne st.dev x _ buf (apart (data_sector i) (ground arith) (λ e. cc));
  }

  entered : Ready env (with_inner n) n a start (record st { dev = stored st.dev x buf })
  entered = record {
    stage = grow-Stage stage change b held at_b;
    holds =
        grow-Holds stage change a b holds ne at_b (
          stored-ne st.dev x a buf (λ e. holds.apart doubly_block has_doubly (sym e))
          ∙ holds.blank);
    keeps = grow-Keeps stage change keeps;
  }

  pub set_inner_lem :
      (outer : Sector)
      → outer ≡ st.dev.sectors x
      → n < max_sectors
      → Returns
          (Outcome env n start (Grown env n start))
          (set_inner env.disk a (outer_idx n) (inner_idx n) outer (some b) st)
  unfolding set_inner
  set_inner_lem outer e hi =
      rw (lt→ltb (outer_idx n) 128 (omega arith), e, write-ok st.dev x buf in_dev mounted.writable)
        (put_inner_lem entered lo buf
          (ap (λ s. get_word s (outer_idx n)) (sym (stored_self st.dev x buf))) hi)
