-- ===== src/Filesys/Inode/Extend/Hold.antt =====
-- A held data sector across the allocation of an index block, and its release on failure.
use implso.Prelude.{
  ℕ, ◌≡◌, refl, ap, sym, ◌∙◌, ◌≢◌, Bool, true, false, Option, none, some, if◌then◌else◌, ◌==◌,
  arith,
}
use implso.Prelude.Run
use implso.Prelude.Run.{Run, ok, ◌>>=◌, Returns, returns}
use implso.Devices.Block.{zeros, stored}
use implso.Kernel.Bitmap.Single.{bit}
use implso.Kernel.Bitmap.Range.{inside}
use implso.Filesys.FreeMap.{FreeMap}
use implso.Filesys.FreeMap.Allocate.{Refusal, release_lem}
use implso.Filesys.Inode.{State}
use implso.Filesys.Inode.Slots.{Slot, data_sector, place, live-IsClosed, Layout-keep}
use implso.Filesys.Inode.Frames.{stored-ne}
use implso.Filesys.Inode.Extend.{give_back, take_sector}
use implso.Filesys.Inode.Extend.Take.{
  Keeps, Around, Refusal-Shortage, Stage, Holds, SamePlaces, Taken, nothing, fresh, take_sector_lem,
}
use implso.Filesys.Inode.Extend.Grow.{Ready, Outcome, failed}

module _ {env : Around} {is_live : Slot → Bool} {n : ℕ} {start st : State}
    (stage : Stage env is_live n st) (keeps : Keeps n start st) where
  -- The state after a fresh sector `b` has been taken and filled with zeros.
  module _ (b : ℕ) (free' : FreeMap)
      (same : SamePlaces is_live st (record st { free = free'; dev = stored st.dev b zeros }))
      (held : Holds env is_live b (record st { free = free'; dev = stored st.dev b zeros })) where
    pub fresh-Keeps : Keeps n start (record st { free = free'; dev = stored st.dev b zeros })
    fresh-Keeps = record {
      places = λ s h. same s (stage.covers s h) ∙ keeps.places s h;
      contents = λ i h.
          let l = stage.covers (data_sector i) (ground arith) in
          let ne : place st.inode st.dev (data_sector i) ≢ b =
            λ e. held.apart (data_sector i) l (same (data_sector i) l ∙ e) in
          ap (stored st.dev b zeros).sectors (same (data_sector i) l)
          ∙ stored-ne st.dev b _ zeros ne
          ∙ keeps.contents i h;
      sized = keeps.sized;
      header = keeps.header;
    }

    -- A sector that was held before is still held.
    pub fresh-Holds :
        (a : ℕ)
        → Holds env is_live a st
        → bit st.free.map b ≡ false
        → ((x : ℕ) → bit free'.map x ≡ (if b == x then true else bit st.free.map x))
        → Holds env is_live a (record st { free = free'; dev = stored st.dev b zeros }) × (a ≢ b)
    fresh-Holds a old was_free marks = (
      record {
        within = old.within;
        marked = marks a ∙ ground (arith, old.marked);
        apart = λ s h e. old.apart s h (sym (same s h) ∙ e);
        blank = stored-ne st.dev b a zeros ne ∙ old.blank;
        unguarded = old.unguarded;
      },
      ne,
    )
      where
        ne : a ≢ b
        ne e = let m = old.marked in cc (rw e at m, was_free)

  -- Where an allocation fails, the data sector is given back, and false returned.
  pub give_back_lem :
      {P : State → Type 0} {taken : FreeMap} (a : ℕ)
      → Refusal env.disk taken 1
      → st.free.map.bit_cnt ≡ taken.map.bit_cnt
      → ((x : ℕ) → bit st.free.map x ≡ bit taken.map x)
      → Holds env is_live a st
      → Returns (Outcome env n start P) (give_back env.disk a st)
  unfolding give_back
  give_back_lem a why same_size same_bits held =
      let (contents, e) = mounted.opened in
      Run.bind
        (release_lem env.disk st.free a 1 contents mounted.valid
          (omega (arith, held.within, mounted.sized))
          (λ j lo hi. let k : a ≡ j = omega arith in rw (← k) held.marked) e)
        λ free' (becomes, opened). returns (
          failed _
            (Refusal-Shortage a free' why (becomes.sized ∙ same_size) (λ x ne.
              let out : inside a 1 x ≡ false = ground (arith, ne) in
              becomes.bits x ∙ (rw out (same_bits x))))
            (record {
              mounted = record {
                writable = mounted.writable;
                valid = becomes.valid;
                sized = becomes.sized ∙ mounted.sized;
                opened = opened;
              };
              layout =
                  Layout-keep layout (λ s h m. becomes.bits _ ∙ still s h m) (λ s h. refl) covers;
              closed = live-IsClosed n;
              covers = λ s h. h;
              guarded = λ x g.
                  let o = guarded x g in
                  record {
                    marked =
                        let ne = held.unguarded x g in
                        let out : inside a 1 x ≡ false = ground (arith, ne) in
                        becomes.bits x ∙ (rw out o.marked);
                    apart = λ s h. o.apart s (covers s h);
                    same = o.same;
                  };
            })
            (record {
              places = keeps.places;
              contents = keeps.contents;
              sized = keeps.sized;
              header = keeps.header;
            }))
    where
      open stage use {mounted, layout, closed, covers, guarded}

      still :
          (s : Slot)
          → is_live s ≡ true
          → bit st.free.map (place st.inode st.dev s) ≡ true
          → (if inside a 1 (place st.inode st.dev s)
              then false
              else bit st.free.map (place st.inode st.dev s))
            ≡ true
      still s h m = let ne = held.apart s h in ground arith

-- An allocation while the data sector `a` is held, and what follows it.
module _ (env : Around) {is_live : Slot → Bool} {n a : ℕ} {start st : State}
    (r : Ready env is_live n a start st) {P : State → Type 0}
    (next : Option ℕ → State → Run (Bool × State))
    (on_none : (st' : State) → next none st' ≡ give_back env.disk a st')
    (on_some : (b : ℕ) (st1 : State)
      → Ready env is_live n a start st1
      → Holds env is_live b st1
      → a ≢ b
      → st1.inode ≡ st.inode
      → ((s : Slot)
          → is_live s ≡ true
          → st1.dev.sectors (place st.inode st.dev s) ≡ st.dev.sectors (place st.inode st.dev s))
      → Returns (Outcome env n start P) (next (some b) st1)) where
  open r use {stage, holds, keeps}

  taken :
      (t : Option ℕ × State)
      → Taken env is_live n st t
      → Returns (Outcome env n start P) (next t.0 t.1)
  taken t (nothing free' stage' why marks) = rw (on_none (record st { free = free' })) (
      give_back_lem stage'
        (record {
          places = keeps.places;
          contents = keeps.contents;
          sized = keeps.sized;
          header = keeps.header;
        })
        a why (stage'.mounted.sized ∙ sym stage.mounted.sized) marks
        (record {
          within = holds.within;
          marked = marks a ∙ holds.marked;
          apart = holds.apart;
          blank = holds.blank;
          unguarded = holds.unguarded;
        }))
  taken t (fresh b free' stage' same held was_free marks) =
      let (still, ne) = fresh-Holds stage keeps b free' same held a holds was_free marks in
      on_some b _
        (record {
          stage = stage';
          holds = still;
          keeps = fresh-Keeps stage keeps b free' same held;
        })
        held ne refl (λ s h. stored-ne st.dev b _ zeros (λ e. held.apart s h (same s h ∙ e)))

  pub after_take : Returns (Outcome env n start P) (take_sector env.disk st >>= λ t. next t.0 t.1)
  after_take = Run.bind (take_sector_lem env st stage) taken
