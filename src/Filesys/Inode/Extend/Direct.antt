-- ===== src/Filesys/Inode/Extend/Direct.antt =====
-- The direct case of inode_extend, and what a round of its loop achieves.
use implso.Prelude.{
  ℕ, ◌+◌, ◌-◌, ◌/◌, ◌≤◌, ◌<◌, ◌≡◌, refl, ap, ◌∙◌, inl, inr, Bool, true, ◌==◌, arith, Bool-cases,
}
use implso.Prelude.Run.{Returns, returns}
use implso.Devices.Block.{zeros}
use implso.Filesys.Inode.{InodeDisk, State, direct_blocks, ptrs_per_sector, update}
use implso.Filesys.Inode.Slots.{
  Slot, data_sector, indirect_block, inner_block, indirect_end, plus, place, live, live-IsClosed,
  Layout-keep, IsClosed,
}
use implso.Filesys.Inode.Extend.{store_direct}
use implso.Filesys.Inode.Extend.Take.{content, Keeps, Around, Stage}
use implso.Filesys.Inode.Extend.Grow.{Ready, Outcome, done, Change, grow-Stage, grow-Keeps}

-- One data sector more, filled with zeros, and the first `n` as they were.
pub record Grown (env : Around) (n : ℕ) (start st : State) : Type 0 where
  pub stage : Stage env (live (n + 1)) (n + 1) st
  pub keeps : Keeps n start st
  pub blank : content st n ≡ zeros

-- The data sector may be added to a set that has its index blocks.
pub data-IsClosed :
    {is_live : Slot → Bool} (n : ℕ)
    → (direct_blocks ≤ n → n < indirect_end → is_live indirect_block ≡ true)
    → (indirect_end ≤ n → is_live (inner_block ((n - indirect_end) / ptrs_per_sector)) ≡ true)
    → IsClosed is_live
    → IsClosed (plus is_live (data_sector n))
data-IsClosed {is_live} n indirect inner closed = record {
  needs_indirect = λ i h lo hi. ground (arith, closed.needs_indirect i, indirect);
  needs_inner = λ i h lo. elim (Bool-cases (i == n)) [
    | inl e ↦ let k : i ≡ n = ground arith in rw (k, inner (omega arith))
    | inr ne ↦
        let old : is_live (data_sector i) ≡ true = ground arith in rw (closed.needs_inner i old lo)
  ];
  needs_doubly = λ k h. ground (arith, closed.needs_doubly k);
}

-- A stage over a set that has the slots of `n + 1` sectors.
pub Stage-next :
    {env : Around} {is_live : Slot → Bool} {n : ℕ} {st : State}
    → ((s : Slot) → live (n + 1) s ≡ true → is_live s ≡ true)
    → Stage env is_live n st
    → Stage env (live (n + 1)) (n + 1) st
Stage-next {n} sub stage = record {
  mounted = stage.mounted;
  layout = Layout-keep stage.layout (λ s h m. m) (λ s h. refl) sub;
  closed = live-IsClosed (n + 1);
  covers = λ s h. h;
  guarded = λ x g.
      let o = stage.guarded x g in
      record { marked = o.marked; apart = λ s h. o.apart s (sub s h); same = o.same };
}

module _ {env : Around} {n a : ℕ} {start st : State} (r : Ready env (live n) n a start st) where
  open r use {stage, holds, keeps}

  -- A direct block: the pointer in the inode.
  pub store_direct_lem :
      n < direct_blocks → Returns (Outcome env n start (Grown env n start)) (store_direct n a st)
  unfolding store_direct
  store_direct_lem lt = returns (
      done _ (record {
        stage = Stage-next cover (grow-Stage stage change a holds at_a);
        keeps = grow-Keeps stage change keeps;
        blank = ap st.dev.sectors at_a ∙ holds.blank;
      }))
    where
      d' : InodeDisk
      d' = record st.inode { direct = update st.inode.direct n a }

      at_a : place d' st.dev (data_sector n) ≡ a
      at_a = ground arith

      same : (s : Slot) → live n s ≡ true → place d' st.dev s ≡ place st.inode st.dev s
      same (data_sector i) h = ground arith
      same _ h = refl

      change : Change (live n) n st (data_sector n) d' st.dev
      change = record {
        sized = refl;
        writable = refl;
        header = (refl, refl, refl);
        closes = data-IsClosed n (λ lo hi. absurd (omega arith)) (λ lo. absurd (omega arith));
        same = same;
        outside = λ x no. refl;
        contents = λ i h. refl;
      }

      cover : (s : Slot) → live (n + 1) s ≡ true → plus (live n) (data_sector n) s ≡ true
      cover (data_sector i) h = ground arith
      cover _ h = ground arith
