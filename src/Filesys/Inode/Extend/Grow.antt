-- ===== src/Filesys/Inode/Extend/Grow.antt =====
-- One more slot in a layout, while a data sector is held.
use implso.Prelude.{
  ℕ, ◌<◌, ◌≡◌, refl, ap, sym, ◌∙◌, ◌≢◌, inl, inr, Bool, true, false, if◌then◌else◌, arith,
}
use implso.Prelude.Run.{Run, ok, Returns, returns}
use implso.Devices.Block.{Block, zeros}
use implso.Filesys.Inode.{InodeDisk, State}
use implso.Filesys.Inode.Slots.{
  Slot, data_sector, doubly_block, inner_block, slot_eq, plus, plus-cases, place, live, Layout-add,
  Layout-keep, IsClosed,
}
use implso.Filesys.Inode.Extend.Take.{
  content, SameHeader, Keeps, Around, Shortage, Stage, Holds, SamePlaces,
}

-- An index block may be added to a closed set; one of the second level needs the doubly indirect
-- block in it.
pub plus-IsClosed :
    {is_live : Slot → Bool} (new : Slot)
    → ((i : ℕ) → slot_eq (data_sector i) new ≡ false)
    → ((k : ℕ) → slot_eq (inner_block k) new ≡ true → is_live doubly_block ≡ true)
    → IsClosed is_live
    → IsClosed (plus is_live new)
plus-IsClosed {is_live} new no_data inner closed = record {
  needs_indirect = λ i h lo hi. rw (closed.needs_indirect i (old i h) lo hi);
  needs_inner = λ i h lo. rw (closed.needs_inner i (old i h) lo);
  needs_doubly = λ k h. ground (arith, inner k, closed.needs_doubly k);
}
  where
    old : (i : ℕ) → plus is_live new (data_sector i) ≡ true → is_live (data_sector i) ≡ true
    old i h = ground (arith, no_data i)

-- The state while sector `a` is held: laid out over the set, and as at the start below `n`.
pub record Ready (env : Around) (is_live : Slot → Bool) (n a : ℕ) (start st : State) : Type 0 where
  pub stage : Stage env is_live n st
  pub holds : Holds env is_live a st
  pub keeps : Keeps n start st

-- How a part of inode_extend ends: with false, and a layout of the first `n` sectors as before; or
-- with true, and what the rest relies on.
pub data Outcome (env : Around) (n : ℕ) (start : State) (P : State → Type 0)
    : Bool × State → Type 0 where
  failed :
      (st' : State)
      → Shortage env.disk st'.free
      → Stage env (live n) n st'
      → Keeps n start st'
      → Outcome env n start P (false, st')
  done : (st' : State) → P st' → Outcome env n start P (true, st')

-- What follows a part that succeeded.
pub Outcome-then :
    {env : Around} {n : ℕ} {start : State} {P Q : State → Type 0} {result : Bool × State}
    {next : State → Run (Bool × State)}
    → Outcome env n start P result
    → ((st' : State) → P st' → Returns (Outcome env n start Q) (next st'))
    → Returns (Outcome env n start Q) (if result.0 then next result.1 else ok (false, result.1))
Outcome-then (failed st' why stage keeps) rest = returns (failed st' why stage keeps)
Outcome-then (done st' p) rest = rest st' p

-- A change of the inode and the device that leaves the slots of the set and the contents alone,
-- and after which the set with the slot `new` is closed.
pub record Change (is_live : Slot → Bool) (n : ℕ) (st : State) (new : Slot) (d' : InodeDisk)
    (dev' : Block) : Type 0 where
  pub sized : dev'.size ≡ st.dev.size
  pub writable : dev'.foreign ≡ st.dev.foreign
  pub header : SameHeader st.inode d'
  pub closes : IsClosed is_live → IsClosed (plus is_live new)
  pub same : SamePlaces is_live st (record st { inode = d'; dev = dev' })
  pub outside :
      (x : ℕ)
      → ((s : Slot) → is_live s ≡ true → place st.inode st.dev s ≢ x)
      → dev'.sectors x ≡ st.dev.sectors x
  pub contents :
      (i : ℕ) → i < n → dev'.sectors (place st.inode st.dev (data_sector i)) ≡ content st i

module _ {env : Around} {is_live : Slot → Bool} {n : ℕ} {st : State} {new : Slot} {d' : InodeDisk}
    {dev' : Block} (stage : Stage env is_live n st) (c : Change is_live n st new d' dev') where
  open stage use {mounted, layout, closed, covers, guarded}
  open c use {sized, writable, header, closes, same, outside, contents}

  -- The slot `new` is placed at a held sector `b`.
  pub grow-Stage :
      (b : ℕ)
      → Holds env is_live b st
      → place d' dev' new ≡ b
      → Stage env (plus is_live new) n (record st { inode = d'; dev = dev' })
  grow-Stage b held at_b = record {
    mounted = record {
      writable = writable ∙ mounted.writable;
      valid = mounted.valid;
      sized = mounted.sized ∙ sym sized;
      opened = mounted.opened;
    };
    layout =
        Layout-add new (rw sized layout) (λ x h. h) same (rw (at_b, sized) held.within)
          (rw at_b held.marked) (λ s h. rw at_b (held.apart s h)) (plus-cases is_live new);
    closed = closes closed;
    covers = λ s h. rw (covers s h);
    guarded = λ x g.
        let o = guarded x g in
        record {
          marked = o.marked;
          apart = λ s h e. elim (plus-cases is_live new s h) [
            | inl is_new ↦ held.unguarded x g (cc (ap (place d' dev') is_new))
            | inr old ↦ o.apart s old (cc (same s old))
          ];
          same = outside x o.apart ∙ o.same;
        };
  }

  pub grow-Keeps :
      {start : State} → Keeps n start st → Keeps n start (record st { inode = d'; dev = dev' })
  grow-Keeps keeps = record {
    places = λ s h. same s (covers s h) ∙ keeps.places s h;
    contents = λ i h.
        ap dev'.sectors (same (data_sector i) (covers _ (ground arith)))
        ∙ contents i h
        ∙ keeps.contents i h;
    sized = sized ∙ keeps.sized;
    header = (header.0 ∙ keeps.header.0, header.1 ∙ keeps.header.1, header.2 ∙ keeps.header.2);
  }

  -- Another sector `a` is still held.
  pub grow-Holds :
      (a b : ℕ)
      → Holds env is_live a st
      → a ≢ b
      → place d' dev' new ≡ b
      → dev'.sectors a ≡ zeros
      → Holds env (plus is_live new) a (record st { inode = d'; dev = dev' })
  grow-Holds a b held ne at_b blank = record {
    within = rw sized held.within;
    marked = held.marked;
    apart = λ s h e. elim (plus-cases is_live new s h) [
      | inl is_new ↦ ne (cc (ap (place d' dev') is_new))
      | inr old ↦ held.apart s old (cc (same s old))
    ];
    blank = blank;
    unguarded = held.unguarded;
  }

-- A slot of the set may be added to it once more.
pub Ready-plus :
    {env : Around} {is_live : Slot → Bool} {n a : ℕ} {start st : State} (new : Slot)
    → is_live new ≡ true
    → (IsClosed is_live → IsClosed (plus is_live new))
    → Ready env is_live n a start st
    → Ready env (plus is_live new) n a start st
Ready-plus {is_live} new has closes r = record {
  stage = record {
    mounted = stage.mounted;
    layout = Layout-keep stage.layout (λ s h m. m) (λ s h. refl) narrow;
    closed = closes stage.closed;
    covers = λ s h. rw (stage.covers s h);
    guarded = λ x g.
        let o = stage.guarded x g in
        record { marked = o.marked; apart = λ s h. o.apart s (narrow s h); same = o.same };
  };
  holds = record {
    within = holds.within;
    marked = holds.marked;
    apart = λ s h. holds.apart s (narrow s h);
    blank = holds.blank;
    unguarded = holds.unguarded;
  };
  keeps = keeps;
}
  where
    open r use {stage, holds, keeps}

    narrow : (s : Slot) → plus is_live new s ≡ true → is_live s ≡ true
    narrow s h = elim (plus-cases is_live new s h) [ inl e ↦ rw e has | inr old ↦ old ]
