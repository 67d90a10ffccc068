-- ===== src/Vm/Frames.antt =====
-- vm/frame_table.c: the frames of user pages, and the choice of a frame to evict. The lock of the
-- table is left out: each operation holds it from its first step to its last.
pub mod Clock
use implso.Prelude.{
  ℕ, zero, suc, Bool, true, false, not, ◌&&◌, ◌||◌, List, [], ◌∷◌, Option, none, some, ltb, ◌==◌,
  if◌then◌else◌,
}
use implso.Kernel.Queue
use implso.Vm.Pages.{SupPage, put_page}

-- `owner` is the address of a thread, `aux` that of the entry of its page; 0 is NULL.
pub record FrameEntry : Type 0 where
  pub frame : ℕ
  pub owner : ℕ
  pub aux : ℕ

-- The entries by their addresses, the list frame_table, the entries of the pages, and of the page
-- directories whether a thread has one and the accessed bit of each of its pages.
pub record Frames : Type 0 where
  pub entries : ℕ → FrameEntry
  pub table : List ℕ
  pub pages : ℕ → SupPage
  pub has_pagedir : ℕ → Bool
  pub accessed : (owner vaddr : ℕ) → Bool

unfoldable pub init : Frames → Frames
init f = record f { table = [] }

unfoldable pub insert : ℕ → Frames → Frames
insert fte f = record f { table = Queue.push_back fte f.table }

-- `block` is what malloc gives.
unfoldable pub add : (block : Option ℕ) (current frame : ℕ) → Frames → Option ℕ × Frames
add none current frame f = (none, f)
add (some fte) current frame f =
    let entry : FrameEntry = record { frame = frame; owner = current; aux = 0 } in
    (some fte, insert fte (record f { entries = λ x. if x == fte then entry else f.entries x }))

unfoldable pub remove : ℕ → Frames → Frames
remove fte f = record f { table = Queue.remove fte f.table }

-- The first entry of the frame and the owner.
unfoldable pub find_frame : Frames → (frame owner : ℕ) → List ℕ → Option ℕ
find_frame f frame owner [] = none
find_frame f frame owner (fte ∷ rest) =
    let later = find_frame f frame owner rest in
    if ((f.entries fte).frame == frame) && ((f.entries fte).owner == owner) then some fte else later

unfoldable pub remove_found : Option ℕ → Frames → Bool × Frames
remove_found none f = (false, f)
remove_found (some fte) f = (true, remove fte f)

unfoldable pub remove_by_kpage : (frame owner : ℕ) → Frames → Bool × Frames
remove_by_kpage frame owner f = remove_found (find_frame f frame owner f.table) f

-- The entries that the two `continue`s for NULL pointers and unloaded pages let pass.
unfoldable pub is_candidate : Frames → ℕ → Bool
is_candidate f fte =
    let e = f.entries fte in
    (not (e.aux == 0) && (f.pages e.aux).is_loaded) && (not (e.owner == 0) && f.has_pagedir e.owner)

unfoldable pub is_accessed : Frames → ℕ → Bool
is_accessed f fte = let e = f.entries fte in f.accessed e.owner (f.pages e.aux).user_vaddr

-- pagedir_set_accessed with false, and the time of the access.
unfoldable pub clear_accessed : (now fte : ℕ) → Frames → Frames
clear_accessed now fte f =
    let e = f.entries fte in
    let vaddr = (f.pages e.aux).user_vaddr in
    record f {
      accessed = λ owner va. not ((owner == e.owner) && (va == vaddr)) && f.accessed owner va;
      pages = put_page e.aux (record (f.pages e.aux) { access_time = now }) f.pages;
    }

unfoldable pub time_of : Frames → ℕ → ℕ
time_of f fte = (f.pages (f.entries fte).aux).access_time

-- `if (!fte || aux->aux->access_time < fte->aux->access_time) fte = aux;`
unfoldable pub older : Frames → (aux : ℕ) → Option ℕ → Option ℕ
older f aux none = some aux
older f aux (some fte) = if ltb (time_of f aux) (time_of f fte) then some aux else some fte

unfoldable pub pass_step : (now aux : ℕ) → Option ℕ × Frames → Option ℕ × Frames
pass_step now aux (fte, f) =
    if not (is_candidate f aux)
    then (fte, f)
    else if is_accessed f aux
    then (fte, clear_accessed now aux f)
    else (older f aux fte, f)

-- The inner loop, over the entries that are left.
unfoldable pub pass_loop : (now : ℕ) → List ℕ → Option ℕ × Frames → Option ℕ × Frames
pass_loop now [] s = s
pass_loop now (aux ∷ rest) s = pass_loop now rest (pass_step now aux s)

-- The outer loop: another pass where the first one has found none.
unfoldable pub second_pass : (now : ℕ) → Option ℕ × Frames → Option ℕ × Frames
second_pass now (some fte, f) = (some fte, f)
second_pass now (none, f) = pass_loop now f.table (none, f)

unfoldable pub take_out : Option ℕ × Frames → Option ℕ × Frames
take_out (none, f) = (none, f)
take_out (some fte, f) = (some fte, remove fte f)

unfoldable pub pop_lru : (now : ℕ) → Frames → Option ℕ × Frames
pop_lru now f = take_out (second_pass now (pass_loop now f.table (none, f)))

-- The loop of frame_table_remove_owner_frames.
unfoldable pub without_owner : Frames → (owner : ℕ) → List ℕ → List ℕ
without_owner f owner [] = []
without_owner f owner (fte ∷ rest) =
    let left = without_owner f owner rest in
    if (f.entries fte).owner == owner then left else fte ∷ left

unfoldable pub remove_owner_frames : (owner : ℕ) → Frames → Frames
remove_owner_frames owner f =
    if owner == 0 then f else record f { table = without_owner f owner f.table }
