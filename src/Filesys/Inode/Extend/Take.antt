-- ===== src/Filesys/Inode/Extend/Take.antt =====
-- Taking a sector for an inode, and giving it back.
use implso.Prelude.{
  ℕ, ◌+◌, ◌*◌, ap, sym, List, length, inl, inr, Bool-cases, ◌≤◌, ◌<◌, ◌≡◌, refl, ◌∙◌, ◌≢◌, Bool,
  true, false, Option, none, some, ◌==◌, if◌then◌else◌, arith,
}
use implso.Prelude.Run
use implso.Prelude.Run.{Run, ok, panic, ◌>>=◌, Returns, returns}
use implso.Devices.Block.{Sector, zeros, stored, write-ok}
use implso.Kernel.Bitmap.{Bitmap}
use implso.Kernel.Bitmap.Single.{bit, Becomes}
use implso.Kernel.Bitmap.Range.{inside, AllAre}
use implso.Filesys.FreeMap.{MapFile, FreeMap}
use implso.Filesys.FreeMap.Allocate.{
  IsOpen, SameSectors, Refusal, full, unwritten, Allocated, refused, given, allocate_lem,
}
use implso.Filesys.Inode.{InodeDisk, State}
use implso.Filesys.Inode.Slots.{
  Slot, data_sector, place, live, Layout, Layout-keep, IsMounted, IsClosed,
}
use implso.Filesys.Inode.Frames.{place-stored, stored_self, stored-ne}
use implso.Filesys.Inode.Extend.{zeroed, take_sector}

-- The contents of the data sector `i`.
abbrev pub content : State → ℕ → Sector
content st i = st.dev.sectors (place st.inode st.dev (data_sector i))

-- The fields that inode_extend leaves alone while it allocates.
abbrev pub SameHeader : InodeDisk → InodeDisk → Type 0
SameHeader d d' = (d'.length ≡ d.length) × (d'.magic ≡ d.magic) × (d'.is_dir ≡ d.is_dir)

-- A later state keeps the layout of the first `n` sectors, and their contents.
pub record Keeps (n : ℕ) (st st' : State) : Type 0 where
  pub places : (s : Slot) → live n s ≡ true → place st'.inode st'.dev s ≡ place st.inode st.dev s
  pub contents : (i : ℕ) → i < n → content st' i ≡ content st i
  pub sized : st'.dev.size ≡ st.dev.size
  pub header : SameHeader st.inode st'.inode

pub Keeps-trans : {n : ℕ} {st st1 st2 : State} → Keeps n st st1 → Keeps n st1 st2 → Keeps n st st2
Keeps-trans k k' = record {
  places = λ s h. k'.places s h ∙ k.places s h;
  contents = λ i h. k'.contents i h ∙ k.contents i h;
  sized = k'.sized ∙ k.sized;
  header = (k'.header.0 ∙ k.header.0, k'.header.1 ∙ k.header.1, k'.header.2 ∙ k.header.2);
}

-- What is around a run of inode_extend: the file of the map, and sectors that have other owners, with
-- what they hold.
pub record Around : Type 1 where
  pub disk : MapFile
  pub guarded : ℕ → Type 0
  pub contents : ℕ → Sector

-- A sector of another owner: it is marked, no slot of the set is there, and it holds what it did.
pub record IsGuarded (env : Around) (is_live : Slot → Bool) (st : State) (x : ℕ) : Type 0 where
  pub marked : bit st.free.map x ≡ true
  pub apart : (s : Slot) → is_live s ≡ true → place st.inode st.dev s ≢ x
  pub same : st.dev.sectors x ≡ env.contents x

-- Why inode_extend has failed, by the map `fm` that it leaves: no sector but `a` is free; or the file
-- did not take all bytes of a map that differs from `fm` in two sectors at most.
pub data Shortage (disk : MapFile) (fm : FreeMap) : Type 0 where
  all_taken :
      (a : ℕ) → ((x : ℕ) → x < fm.map.bit_cnt → x ≢ a → bit fm.map x ≡ true) → Shortage disk fm
  short_write :
      (a i : ℕ) (b : Bitmap) (contents : List ℕ)
      → ((x : ℕ) → x ≢ a → x ≢ i → bit b x ≡ bit fm.map x)
      → (disk.write_at contents b.bits).0 ≢ 4 * length b.bits
      → Shortage disk fm

-- A refusal of free_map_allocate, and the map after that but for the sector `a`.
pub Refusal-Shortage :
    {disk : MapFile} {fm : FreeMap} (a : ℕ) (fm' : FreeMap)
    → Refusal disk fm 1
    → fm'.map.bit_cnt ≡ fm.map.bit_cnt
    → ((x : ℕ) → x ≢ a → bit fm'.map x ≡ bit fm.map x)
    → Shortage disk fm'
Refusal-Shortage {disk} {fm} a fm' (full nowhere) sized same = all_taken a (λ x lt ne.
    same x ne ∙ (elim (Bool-cases (bit fm.map x)) [
      | inl e ↦ e
      | inr e ↦ absurd (
          nowhere x (omega (arith, lt, sized))
            (λ j lo hi. let q : j ≡ x = omega arith in ap (bit fm.map) q ∙ e))
    ]))
Refusal-Shortage {disk} {fm} a fm' (unwritten i b contents becomes e short) sized same =
    short_write a i b contents
      (λ x ne miss.
        let out : inside i 1 x ≡ false = ground (arith, miss) in
        becomes.bits x ∙ (rw out (sym (same x ne))))
      short

-- A mounted state in which the slots of a closed set, which has those of `n` sectors, are laid out.
pub record Stage (env : Around) (is_live : Slot → Bool) (n : ℕ) (st : State) : Type 0 where
  pub mounted : IsMounted st
  pub layout : Layout st.dev.size (bit st.free.map) (place st.inode st.dev) is_live
  pub closed : IsClosed is_live
  pub covers : (s : Slot) → live n s ≡ true → is_live s ≡ true
  pub guarded : (x : ℕ) → env.guarded x → IsGuarded env is_live st x

-- A sector that is taken, holds zeros, and is not the place of a slot of the set.
pub record Holds (env : Around) (is_live : Slot → Bool) (sector : ℕ) (st : State) : Type 0 where
  pub within : sector < st.dev.size
  pub marked : bit st.free.map sector ≡ true
  pub apart : (s : Slot) → is_live s ≡ true → place st.inode st.dev s ≢ sector
  pub blank : st.dev.sectors sector ≡ zeros
  pub unguarded : (x : ℕ) → env.guarded x → x ≢ sector

-- Every slot of the set stays where it is.
abbrev pub SamePlaces : (Slot → Bool) → State → State → Type 0
SamePlaces is_live st st' =
    (s : Slot) → is_live s ≡ true → place st'.inode st'.dev s ≡ place st.inode st.dev s

-- What take_sector gives: no sector, or a fresh one; the inode is the same.
pub data Taken (env : Around) (is_live : Slot → Bool) (n : ℕ) (st : State)
    : Option ℕ × State → Type 0 where
  nothing :
      (free' : FreeMap)
      → Stage env is_live n (record st { free = free' })
      → Refusal env.disk st.free 1
      → ((x : ℕ) → bit free'.map x ≡ bit st.free.map x)
      → Taken env is_live n st (none, record st { free = free' })
  fresh :
      (a : ℕ) (free' : FreeMap)
      → Stage env is_live n (record st { free = free'; dev = stored st.dev a zeros })
      → SamePlaces is_live st (record st { free = free'; dev = stored st.dev a zeros })
      → Holds env is_live a (record st { free = free'; dev = stored st.dev a zeros })
      → bit st.free.map a ≡ false
      → ((x : ℕ) → bit free'.map x ≡ (if a == x then true else bit st.free.map x))
      → Taken env is_live n st (some a, record st { free = free'; dev = stored st.dev a zeros })

inside_one : (a x : ℕ) → inside a 1 x ≡ (a == x)
inside_one a x = ground arith

module _ (env : Around) {is_live : Slot → Bool} {n : ℕ} (st : State)
    (stage : Stage env is_live n st) where
  open stage use {mounted, layout, closed, covers, guarded}

  took_nothing :
      (free' : FreeMap)
      → Refusal env.disk st.free 1
      → SameSectors st.free free'
      → Taken env is_live n st (none, record st { free = free' })
  took_nothing free' why same =
      nothing free'
        (record {
          mounted = record {
            writable = mounted.writable;
            valid = same.valid;
            sized = same.sized ∙ mounted.sized;
            opened = same.opened mounted.opened;
          };
          layout = Layout-keep layout (λ s h m. same.sectors _ ∙ m) (λ s h. refl) (λ s h. h);
          closed = closed;
          covers = covers;
          guarded = λ x g.
              let o = guarded x g in
              record { marked = same.sectors x ∙ o.marked; apart = o.apart; same = o.same };
        })
        why same.sectors

  took_one :
      (a : ℕ) (free' : FreeMap)
      → a + 1 ≤ st.free.map.bit_cnt
      → AllAre (bit st.free.map) false a 1
      → Becomes st.free.map (λ j. if inside a 1 j then true else bit st.free.map j) free'.map
      → IsOpen free'
      → Returns (Taken env is_live n st) (zeroed env.disk (some a) (record st { free = free' }))
  unfolding zeroed
  took_one a free' fits all_free becomes opened = rw (write-ok st.dev a zeros lt mounted.writable) (
      returns (
        fresh a free'
          (record {
            mounted = record {
              writable = mounted.writable;
              valid = becomes.valid;
              sized = becomes.sized ∙ mounted.sized;
              opened = opened;
            };
            layout = Layout-keep layout (λ s h m. marks_grow _ m) kept (λ s h. h);
            closed = closed;
            covers = covers;
            guarded = λ x g.
                let o = guarded x g in
                record {
                  marked = marks_grow x o.marked;
                  apart = λ s h e. o.apart s h (sym (kept s h) ∙ e);
                  same = stored-ne st.dev a x zeros (other x g) ∙ o.same;
                };
          })
          kept
          (record {
            within = lt;
            marked = marks a ∙ ground arith;
            apart = λ s h. rw (kept s h) (apart s h);
            blank = stored_self st.dev a zeros;
            unguarded = other;
          })
          free_before marks))
    where
      lt : a < st.dev.size
      lt = omega (arith, mounted.sized)

      free_before : bit st.free.map a ≡ false
      free_before = all_free a (omega arith) (omega arith)

      other : (x : ℕ) → env.guarded x → x ≢ a
      other x g e = let m = (guarded x g).marked in cc (rw e at m, free_before)

      marks : (x : ℕ) → bit free'.map x ≡ (if a == x then true else bit st.free.map x)
      marks x = becomes.bits x ∙ rw (inside_one a x)

      marks_grow : (x : ℕ) → bit st.free.map x ≡ true → bit free'.map x ≡ true
      marks_grow x m = ground (arith, marks x)

      apart : (s : Slot) → is_live s ≡ true → place st.inode st.dev s ≢ a
      apart s h e = let m = layout.marked s h in cc (rw e at m, free_before)

      kept : SamePlaces is_live st (record st { free = free'; dev = stored st.dev a zeros })
      kept = place-stored st.inode st.dev a zeros closed apart

  took :
      (r : Option ℕ × FreeMap)
      → Allocated env.disk st.free 1 r
      → Returns (Taken env is_live n st) (zeroed env.disk r.0 (record st { free = r.1 }))
  unfolding zeroed
  took r (refused free' why same) = returns (took_nothing free' why same)
  took r (given a free' fits all_free earlier becomes saved opened) =
      took_one a free' fits all_free becomes (opened mounted.opened)

  pub take_sector_lem : Returns (Taken env is_live n st) (take_sector env.disk st)
  unfolding take_sector
  take_sector_lem = Run.bind (allocate_lem env.disk st.free 1 mounted.valid) λ r got. took r got
