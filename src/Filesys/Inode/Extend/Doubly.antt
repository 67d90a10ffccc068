-- ===== src/Filesys/Inode/Extend/Doubly.antt =====
-- The doubly indirect case of inode_extend.
use implso.Prelude.{
  ℕ, ◌-◌, ◌≤◌, ◌<◌, ◌≡◌, refl, ap, sym, ◌∙◌, ◌≢◌, inl, inr, Bool, true, none, some, ◌==◌, arith,
  Bool-cases,
}
use implso.Prelude.Run
use implso.Prelude.Run.{Run, ok, ◌>>=◌, Returns, returns}
use implso.Devices.Block.{Sector, read-ok}
use implso.Filesys.FreeMap.{MapFile}
use implso.Filesys.Inode.{State}
use implso.Filesys.Inode.Slots.{
  Slot, doubly_block, inner_block, indirect_end, max_sectors, plus, place, live, IsClosed,
}
use implso.Filesys.Inode.Frames.{place-set_doubly}
use implso.Filesys.Inode.Extend.{
  give_back, set_doubly, ensure_doubly, set_inner, store_inner, store_doubly,
}
use implso.Filesys.Inode.Extend.Take.{Around, Holds}
use implso.Filesys.Inode.Extend.Grow.{
  plus-IsClosed, Ready, Ready-plus, Outcome, Outcome-then, done, Change, grow-Stage, grow-Keeps,
  grow-Holds,
}
use implso.Filesys.Inode.Extend.Hold.{after_take}
use implso.Filesys.Inode.Extend.Inner.{with_doubly, with_inner, outer_idx, inner_idx, put_inner_lem}
use implso.Filesys.Inode.Extend.Enter.{set_inner_lem}
use implso.Filesys.Inode.Extend.Direct.{Grown}

closes_doubly : {is_live : Slot → Bool} → IsClosed is_live → IsClosed (plus is_live doubly_block)
closes_doubly c = plus-IsClosed doubly_block (λ i. refl) (λ k e. cc) c

set_inner-none :
    (n a : ℕ) (disk : MapFile) (outer : Sector) (st : State)
    → set_inner disk a (outer_idx n) (inner_idx n) outer none st ≡ give_back disk a st
unfolding set_inner
set_inner-none n a disk outer st = refl

module _ {env : Around} {n a : ℕ} {start : State} (lo : indirect_end ≤ n) where
  -- The doubly indirect block is allocated with its first entry.
  ensure_doubly_lem :
      {st : State}
      → Ready env (live n) n a start st
      → Returns
          (Outcome env n start (Ready env (with_doubly n) n a start))
          (ensure_doubly env.disk a (n - indirect_end) st)
  unfolding ensure_doubly set_doubly
  ensure_doubly_lem {st} r = elim (Bool-cases (n - indirect_end == 0)) [
    | inl first ↦
        rw first (after_take env r (set_doubly env.disk a) (λ st'. refl) (made (ground arith)))
    | inr later ↦
        rw later (returns (done st (Ready-plus doubly_block (ground arith) closes_doubly r)))
  ]
    where
      made :
          n ≤ indirect_end
          → (b : ℕ) (st1 : State) → Ready env (live n) n a start st1
          → Holds env (live n) b st1
          → a ≢ b
          → st1.inode ≡ st.inode
          → ((s : Slot)
              → live n s ≡ true
              → st1.dev.sectors (place st.inode st.dev s)
                ≡ st.dev.sectors (place st.inode st.dev s))
          → Returns
              (Outcome env n start (Ready env (with_doubly n) n a start))
              (set_doubly env.disk a (some b) st1)
      made le b st1 r1 held ne _ _ = returns (
          done _ (record {
            stage = grow-Stage r1.stage change b held refl;
            holds = grow-Holds r1.stage change a b r1.holds ne refl r1.holds.blank;
            keeps = grow-Keeps r1.stage change r1.keeps;
          }))
        where
          change :
              Change (live n) n st1 doubly_block (record st1.inode { doubly_indirect = b }) st1.dev
          change = record {
            sized = refl;
            writable = refl;
            header = (refl, refl, refl);
            closes = closes_doubly;
            same = λ s h. place-set_doubly st1.inode st1.dev b n s le h;
            outside = λ x no. refl;
            contents = λ i h. refl;
          }

  -- What follows the first allocation.
  store_inner_lem :
      {st : State}
      → Ready env (with_doubly n) n a start st
      → n < max_sectors
      → Returns
          (Outcome env n start (Grown env n start))
          (store_inner env.disk a (outer_idx n) (inner_idx n) st)
  unfolding store_inner
  store_inner_lem {st} r hi =
      rw (read-ok st.dev st.inode.doubly_indirect in_dev) (elim (Bool-cases (inner_idx n == 0)) [
        | inl first ↦ rw first (
            after_take env r (set_inner env.disk a (outer_idx n) (inner_idx n) outer)
              (set_inner-none n a env.disk outer) (entering (ground arith)))
        | inr later ↦ rw later (
            put_inner_lem (Ready-plus (inner_block (outer_idx n)) (ground arith) closes_inner r) lo
              outer refl hi)
      ])
    where
      outer : Sector
      outer = st.dev.sectors st.inode.doubly_indirect

      in_dev : st.inode.doubly_indirect < st.dev.size
      in_dev = r.stage.layout.within doubly_block (ground arith)

      closes_inner : IsClosed (with_doubly n) → IsClosed (with_inner n)
      closes_inner c = plus-IsClosed (inner_block (outer_idx n)) (λ i. refl) (λ k e. ground arith) c

      entering :
          inner_idx n ≡ 0
          → (b : ℕ) (st1 : State) → Ready env (with_doubly n) n a start st1
          → Holds env (with_doubly n) b st1
          → a ≢ b
          → st1.inode ≡ st.inode
          → ((s : Slot)
              → with_doubly n s ≡ true
              → st1.dev.sectors (place st.inode st.dev s)
                ≡ st.dev.sectors (place st.inode st.dev s))
          → Returns
              (Outcome env n start (Grown env n start))
              (set_inner env.disk a (outer_idx n) (inner_idx n) outer (some b) st1)
      entering first b st1 r1 held ne same_inode untouched =
          set_inner_lem r1 held ne lo first outer
            (sym (
              ap (λ d. st1.dev.sectors d.doubly_indirect) same_inode
              ∙ untouched doubly_block (ground arith)))
            hi

  pub store_doubly_lem :
      {st : State}
      → Ready env (live n) n a start st
      → n < max_sectors
      → Returns
          (Outcome env n start (Grown env n start))
          (store_doubly env.disk a (n - indirect_end) st)
  unfolding store_doubly
  store_doubly_lem r hi =
      Run.bind (ensure_doubly_lem r)
        λ result outcome. Outcome-then outcome (λ st1 r1. store_inner_lem r1 hi)
