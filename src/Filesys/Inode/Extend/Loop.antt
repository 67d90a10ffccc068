-- ===== src/Filesys/Inode/Extend/Loop.antt =====
-- The loop of inode_extend.
use implso.Prelude.{
  ℕ, zero, suc, ◌+◌, ◌-◌, ◌≤◌, ◌<◌, ◌≡◌, refl, sym, ◌∙◌, Bool, true, false, Option, ltb,
  if◌then◌else◌, arith, Bool-cases, inl, inr,
}
use implso.Prelude.Run
use implso.Prelude.Run.{Run, ok, ◌>>=◌, Returns, returns}
use native.Mathlib.Decide.{dec_lt}
use implso.Devices.Block.{zeros}
use implso.Filesys.Inode.{State, direct_blocks, ptrs_per_sector}
use implso.Filesys.Inode.Slots.{
  Slot, data_sector, indirect_block, doubly_block, inner_block, indirect_end, max_sectors, live,
  live-IsClosed, Layout-keep,
}
use implso.Filesys.Inode.Extend.{store_sector, add_sector, extend_loop}
use implso.Filesys.Inode.Extend.Take.{
  content, Keeps, Keeps-trans, Around, Shortage, Refusal-Shortage, Stage, Taken, nothing, fresh,
  take_sector_lem,
}
use implso.Filesys.Inode.Extend.Grow.{Ready, Outcome, failed, done}
use implso.Filesys.Inode.Extend.Hold.{fresh-Keeps}
use implso.Filesys.Inode.Extend.Direct.{Grown, store_direct_lem}
use implso.Filesys.Inode.Extend.Indirect.{store_indirect_lem}
use implso.Filesys.Inode.Extend.Doubly.{store_doubly_lem}

-- Fewer sectors of the same file.
live-le : (m n : ℕ) (s : Slot) → m ≤ n → live m s ≡ true → live n s ≡ true
live-le m n (data_sector i) le h = ground arith
live-le m n indirect_block le h = ground arith
live-le m n doubly_block le h = ground arith
live-le m n (inner_block k) le h = ground arith

Stage-le :
    {env : Around} {m n : ℕ} {st : State}
    → m ≤ n
    → Stage env (live n) n st
    → Stage env (live m) m st
Stage-le {env} {m} {n} le stage = record {
  mounted = stage.mounted;
  layout = Layout-keep stage.layout (λ s h x. x) (λ s h. refl) (λ s h. live-le m n s le h);
  closed = live-IsClosed m;
  covers = λ s h. h;
  guarded = λ x g.
      let o = stage.guarded x g in
      record { marked = o.marked; apart = λ s h. o.apart s (live-le m n s le h); same = o.same };
}

Keeps-le : {m n : ℕ} {st st' : State} → m ≤ n → Keeps n st st' → Keeps m st st'
Keeps-le {m} {n} le k = record {
  places = λ s h. k.places s (live-le m n s le h);
  contents = λ i h. k.contents i (omega arith);
  sized = k.sized;
  header = k.header;
}

pub Keeps-refl : {n : ℕ} (st : State) → Keeps n st st
Keeps-refl st = record {
  places = λ s h. refl;
  contents = λ i h. refl;
  sized = refl;
  header = (refl, refl, refl);
}

module _ (env : Around) where
  store_sector_lem :
      {n a : ℕ} {start st : State}
      → Ready env (live n) n a start st
      → n < max_sectors
      → Returns (Outcome env n start (Grown env n start)) (store_sector env.disk n a st)
  unfolding store_sector
  store_sector_lem {n} r hi = elim (Bool-cases (ltb n direct_blocks)) [
    | inl low ↦ rw low (store_direct_lem r (ground arith))
    | inr not_low ↦ elim (Bool-cases (ltb n indirect_end)) [
      | inl mid ↦ rw (not_low, mid) (store_indirect_lem r (ground arith) (ground arith))
      | inr far ↦
          let e : n - direct_blocks - ptrs_per_sector ≡ n - indirect_end = omega arith in
          rw (not_low, far, e) (store_doubly_lem (ground arith) r hi)
    ]
  ]

  -- One round of the loop.
  add_sector_lem :
      {n : ℕ} {st : State} (t : Option ℕ × State)
      → Stage env (live n) n st
      → n < max_sectors
      → Taken env (live n) n st t
      → Returns (Outcome env n st (Grown env n st)) (add_sector env.disk n t.0 t.1)
  unfolding add_sector
  add_sector_lem {st} t stage hi (nothing free' stage' why marks) = returns (
      failed _
        (Refusal-Shortage 0 free' why (stage'.mounted.sized ∙ sym stage.mounted.sized)
          (λ x ne. marks x))
        stage'
        (record {
          places = λ s h. refl;
          contents = λ i h. refl;
          sized = refl;
          header = (refl, refl, refl);
        }))
  add_sector_lem {st} t stage hi (fresh b free' stage' same held was_free marks) =
      store_sector_lem
        (record {
          stage = stage';
          holds = held;
          keeps = fresh-Keeps stage (Keeps-refl st) b free' same held;
        })
        hi

  -- How the loop ends: early, with the first `m` sectors as they were; or with all `total` laid
  -- out, the new ones filled with zeros.
  pub data LoopEnd (m total : ℕ) (start : State) : Bool × State → Type 0 where
    stopped :
        (st' : State)
        → Shortage env.disk st'.free
        → Stage env (live m) m st'
        → Keeps m start st'
        → LoopEnd m total start (false, st')
    reached :
        (st' : State)
        → Stage env (live total) total st'
        → Keeps m start st'
        → ((i : ℕ) → m ≤ i → i < total → content st' i ≡ zeros)
        → LoopEnd m total start (true, st')

  -- The new sectors stay as they are over one more round.
  blank_after :
      {m n : ℕ} {st st1 : State}
      → ((i : ℕ) → m ≤ i → i < n → content st i ≡ zeros)
      → Grown env n st st1
      → (i : ℕ) → m ≤ i
      → i < n + 1
      → content st1 i ≡ zeros
  blank_after {n} blank g i lo hi = elim (dec_lt i n) [
    | yes old ↦ g.keeps.contents i old ∙ blank i lo old
    | no new ↦ let e : i ≡ n = omega arith in rw e g.blank
  ]

  -- The later rounds, from a state that the earlier ones have reached.
  module _ {m total : ℕ} {start : State} where
    pub extend_loop_lem :
        (rounds n : ℕ) {st : State}
        → Stage env (live n) n st
        → m ≤ n
        → n + rounds ≡ total
        → total ≤ max_sectors
        → Keeps m start st
        → ((i : ℕ) → m ≤ i → i < n → content st i ≡ zeros)
        → Returns (LoopEnd m total start) (extend_loop env.disk rounds n st)
    unfolding extend_loop
    extend_loop_lem zero n {st} stage le e hi keeps blank =
        let k : n ≡ total = omega arith in
        returns (reached st (rw k at stage) keeps (rw k at blank))
    extend_loop_lem (suc rounds) n {st} stage le e hi keeps blank =
        Run.bind (take_sector_lem env st stage) λ t taken.
          Run.bind (add_sector_lem t stage (omega arith) taken) λ result outcome.
            rest result outcome λ st' g.
              extend_loop_lem rounds (n + 1) g.stage (omega arith) (omega arith) hi
                (Keeps-trans keeps (Keeps-le le g.keeps)) (blank_after blank g)
      where
        rest :
            (result : Bool × State)
            → Outcome env n st (Grown env n st) result
            → ((st' : State)
                → Grown env n st st'
                → Returns (LoopEnd m total start) (extend_loop env.disk rounds (n + 1) st'))
            → Returns (LoopEnd m total start) (
                if result.0
                then extend_loop env.disk rounds (n + 1) result.1
                else ok (false, result.1))
        rest result (failed st' why stage' keeps') later =
            returns (stopped st' why (Stage-le le stage') (Keeps-trans keeps (Keeps-le le keeps')))
        rest result (done st' g) later = later st' g
