-- ===== src/Filesys/Inode/Extend/Indirect.antt =====
-- The indirect case of inode_extend.
use implso.Prelude.{
  ℕ, ◌+◌, ◌-◌, ◌^◌, ◌≤◌, ◌<◌, ◌≡◌, refl, ap, sym, ◌∙◌, ◌≢◌, inl, inr, Bool, true, some, ◌==◌, arith,
  Bool-cases, lt→ltb,
}
use implso.Prelude.Run
use implso.Prelude.Run.{Run, ok, ◌>>=◌, Returns, returns}
use implso.Devices.Block.{Sector, zeros, stored, put_word, read-ok, write-ok}
use implso.Filesys.Inode.{State, direct_blocks}
use implso.Filesys.Inode.Slots.{
  Slot, data_sector, indirect_block, doubly_block, inner_block, indirect_end, plus, place, live,
  IsClosed,
}
use implso.Filesys.Inode.Frames.{
  place-eq, place-indirect, place-set_indirect, stored-ne, SameWord-put, get_word-put,
}
use implso.Filesys.Inode.Extend.{set_indirect, ensure_indirect, put_indirect, store_indirect}
use implso.Filesys.Inode.Extend.Take.{Around, Holds}
use implso.Filesys.Inode.Extend.Grow.{
  plus-IsClosed, Ready, Ready-plus, Outcome, Outcome-then, done, Change, grow-Stage, grow-Keeps,
  grow-Holds,
}
use implso.Filesys.Inode.Extend.Hold.{after_take}
use implso.Filesys.Inode.Extend.Direct.{Grown, data-IsClosed, Stage-next}

module _ {env : Around} {n a : ℕ} {start st : State} (r : Ready env (live n) n a start st) where
  open r use {stage, holds, keeps}

  -- The indirect block is allocated with its first entry.
  pub ensure_indirect_lem :
      direct_blocks ≤ n
      → n < indirect_end
      → Returns
          (Outcome env n start (Ready env (plus (live n) indirect_block) n a start))
          (ensure_indirect env.disk a (n - direct_blocks) st)
  unfolding ensure_indirect set_indirect
  ensure_indirect_lem lo hi = elim (Bool-cases (n - direct_blocks == 0)) [
    | inl first ↦
        rw first (after_take env r (set_indirect env.disk a) (λ st'. refl) (made (ground arith)))
    | inr later ↦ rw later (returns (done st (Ready-plus indirect_block (ground arith) closes r)))
  ]
    where
      closes : {is_live : Slot → Bool} → IsClosed is_live → IsClosed (plus is_live indirect_block)
      closes c = plus-IsClosed indirect_block (λ i. refl) (λ k e. cc) c

      made :
          n ≤ direct_blocks
          → (b : ℕ) (st1 : State) → Ready env (live n) n a start st1
          → Holds env (live n) b st1
          → a ≢ b
          → st1.inode ≡ st.inode
          → ((s : Slot)
              → live n s ≡ true
              → st1.dev.sectors (place st.inode st.dev s)
                ≡ st.dev.sectors (place st.inode st.dev s))
          → Returns
              (Outcome env n start (Ready env (plus (live n) indirect_block) n a start))
              (set_indirect env.disk a (some b) st1)
      made le b st1 r1 held ne _ _ = returns (
          done _ (record {
            stage = grow-Stage r1.stage change b held refl;
            holds = grow-Holds r1.stage change a b r1.holds ne refl r1.holds.blank;
            keeps = grow-Keeps r1.stage change r1.keeps;
          }))
        where
          change : Change (live n) n st1 indirect_block (record st1.inode { indirect = b }) st1.dev
          change = record {
            sized = refl;
            writable = refl;
            header = (refl, refl, refl);
            closes = closes;
            same = λ s h. place-set_indirect st1.inode st1.dev b n s le h;
            outside = λ x no. refl;
            contents = λ i h. refl;
          }

-- The entry of the indirect block, and with it the new data sector.
pub put_indirect_lem :
    {env : Around} {n a : ℕ} {start st : State}
    → Ready env (plus (live n) indirect_block) n a start st
    → direct_blocks ≤ n
    → n < indirect_end
    → Returns (Outcome env n start (Grown env n start)) (put_indirect a (n - direct_blocks) st)
unfolding put_indirect
put_indirect_lem {env} {n} {a} {start} {st} r lo hi =
    rw
      (
        read-ok st.dev x in_dev,
        lt→ltb (n - direct_blocks) 128 (omega arith),
        write-ok st.dev x buf in_dev mounted.writable,
      )
      (returns (
        done _ (record {
          stage = Stage-next cover (grow-Stage stage change a holds at_a);
          keeps = grow-Keeps stage change keeps;
          blank = blank;
        })))
  where
    open r use {stage, holds, keeps}
    open stage use {mounted, layout}

    is_live : Slot → Bool
    is_live = plus (live n) indirect_block

    x : ℕ
    x = st.inode.indirect

    buf : Sector
    buf = put_word (st.dev.sectors x) (n - direct_blocks) a

    in_dev : x < st.dev.size
    in_dev = layout.within indirect_block (ground arith)

    small : a < 2 ^ 32
    small = omega (arith, holds.within, mounted.sized, mounted.valid.fits)

    at_a : place st.inode (stored st.dev x buf) (data_sector n) ≡ a
    at_a =
        place-indirect st.inode (stored st.dev x buf) n lo hi
        ∙ get_word-put st.dev x (n - direct_blocks) a small

    same :
        (s : Slot)
        → is_live s ≡ true
        → place st.inode (stored st.dev x buf) s ≡ place st.inode st.dev s
    same (data_sector i) h = place-eq st.inode st.dev (stored st.dev x buf) (data_sector i) (
      λ lo' hi'.
          SameWord-put st.dev x (n - direct_blocks) a x (i - direct_blocks) small
            (inr (ground arith)),
      λ far. absurd (ground arith),
      λ far. absurd (ground arith),
    )
    same indirect_block h = refl
    same doubly_block h = refl
    same (inner_block k) h = absurd (ground arith)

    blank :
        (stored st.dev x buf).sectors (place st.inode (stored st.dev x buf) (data_sector n)) ≡ zeros
    blank =
        ap (stored st.dev x buf).sectors at_a
        ∙ stored-ne st.dev x a buf (λ e. holds.apart indirect_block (ground arith) (sym e))
        ∙ holds.blank

    apart : (i : ℕ) → i < n → place st.inode st.dev (data_sector i) ≢ x
    apart i h e =
        cc (layout.distinct (data_sector i) indirect_block (ground arith) (ground arith) e)

    change : Change is_live n st (data_sector n) st.inode (stored st.dev x buf)
    change = record {
      sized = refl;
      writable = refl;
      header = (refl, refl, refl);
      closes = data-IsClosed n (λ lo hi. ground arith) (λ lo. absurd (omega arith));
      same = same;
      outside = λ y no. stored-ne st.dev x y buf (λ e. no indirect_block (ground arith) (sym e));
      contents = λ i h. stored-ne st.dev x _ buf (apart i h);
    }

    cover : (s : Slot) → live (n + 1) s ≡ true → plus is_live (data_sector n) s ≡ true
    cover (data_sector i) h = ground arith
    cover _ h = ground arith

pub store_indirect_lem :
    {env : Around} {n a : ℕ} {start st : State}
    → Ready env (live n) n a start st
    → direct_blocks ≤ n
    → n < indirect_end
    → Returns
        (Outcome env n start (Grown env n start))
        (store_indirect env.disk a (n - direct_blocks) st)
unfolding store_indirect
store_indirect_lem r lo hi =
    Run.bind (ensure_indirect_lem r lo hi)
      λ result outcome. Outcome-then outcome (λ st1 r1. put_indirect_lem r1 lo hi)
