-- ===== src/Kernel/Linked.antt =====
-- lib/kernel/list.c on the memory: a list element is two pointers, prev and next, and a list is two
-- elements, its head and its tail.
pub mod Distinct
pub mod Ends
pub mod Insert
pub mod Loops
pub mod Passes
pub mod Remove
pub mod Rewrite
pub mod Sort
pub mod Segment
use implso.Prelude.{ℕ, ◌+◌, Bool, true, false, not, ◌&&◌, ◌||◌, ◌==◌, if◌then◌else◌}
use implso.Prelude.Run.{Run, ok, ◌>>=◌, ◌>>◌, assert}

-- The fields of each `struct list_elem`, by its address. NULL is 0.
pub record Memory : Type 0 where
  pub next : ℕ → ℕ
  pub prev : ℕ → ℕ

abbrev pub null : ℕ
null = 0

abbrev pub put : (ℕ → ℕ) → (at value : ℕ) → ℕ → ℕ
put field at value x = if x == at then value else field x

abbrev pub set_next : (elem value : ℕ) → Memory → Memory
set_next elem value m = record m { next = put m.next elem value }

abbrev pub set_prev : (elem value : ℕ) → Memory → Memory
set_prev elem value m = record m { prev = put m.prev elem value }

unfoldable pub is_head : Memory → ℕ → Bool
is_head m elem = not (elem == null) && ((m.prev elem == null) && not (m.next elem == null))

unfoldable pub is_interior : Memory → ℕ → Bool
is_interior m elem = not (elem == null) && (not (m.prev elem == null) && not (m.next elem == null))

unfoldable pub is_tail : Memory → ℕ → Bool
is_tail m elem = not (elem == null) && (not (m.prev elem == null) && (m.next elem == null))

-- `&list->head` and `&list->tail`: an element has two pointers of four bytes.
abbrev pub head_of : ℕ → ℕ
head_of list = list

abbrev pub tail_of : ℕ → ℕ
tail_of list = list + 8

unfoldable pub init : (list : ℕ) → Memory → Run Memory
init list m = do
  assert (not (list == null))
  ok (
      set_next (tail_of list) null (
        set_prev (tail_of list) (head_of list)
          (set_next (head_of list) (tail_of list) (set_prev (head_of list) null m))))

unfoldable pub begin : (list : ℕ) → Memory → Run ℕ
begin list m = do assert (not (list == null)); ok (m.next (head_of list))

unfoldable pub next_of : (elem : ℕ) → Memory → Run ℕ
next_of elem m = do assert (is_head m elem || is_interior m elem); ok (m.next elem)

-- list_end, and list_tail, which has the same body.
unfoldable pub end : (list : ℕ) → Run ℕ
end list = do assert (not (list == null)); ok (tail_of list)

unfoldable pub rbegin : (list : ℕ) → Memory → Run ℕ
rbegin list m = do assert (not (list == null)); ok (m.prev (tail_of list))

unfoldable pub prev_of : (elem : ℕ) → Memory → Run ℕ
prev_of elem m = do assert (is_interior m elem || is_tail m elem); ok (m.prev elem)

-- list_rend, and list_head, which has the same body.
unfoldable pub rend : (list : ℕ) → Run ℕ
rend list = do assert (not (list == null)); ok (head_of list)

-- The four writes of list_insert.
unfoldable pub link : (before elem : ℕ) → Memory → Memory
link before elem m =
    let m2 = set_next elem before (set_prev elem (m.prev before) m) in
    set_prev before elem (set_next (m2.prev before) elem m2)

unfoldable pub insert : (before elem : ℕ) → Memory → Run Memory
insert before elem m = do
  assert (is_interior m before || is_tail m before)
  assert (not (elem == null))
  ok (link before elem m)

-- `FIRST...LAST into new list`, after it is cut out of its own.
unfoldable pub join : (before first last : ℕ) → Memory → Memory
join before first last m =
    let m2 = set_next last before (set_prev first (m.prev before) m) in
    set_prev before last (set_next (m2.prev before) first m2)

unfoldable pub cut : (first last : ℕ) → Memory → Memory
cut first last m =
    let m1 = set_next (m.prev first) (m.next last) m in set_prev (m1.next last) (m1.prev first) m1

unfoldable pub splice : (before first last : ℕ) → Memory → Run Memory
splice before first last m = do
  assert (is_interior m before || is_tail m before)
  if first == last then ok m else (do
    last' ← prev_of last m
    assert (is_interior m first)
    assert (is_interior m last')
    ok (join before first last' (cut first last' m)))

unfoldable pub push_front : (list elem : ℕ) → Memory → Run Memory
push_front list elem m = do first ← begin list m; insert first elem m

unfoldable pub push_back : (list elem : ℕ) → Memory → Run Memory
push_back list elem m = do tail ← end list; insert tail elem m

unfoldable pub unlink : (elem : ℕ) → Memory → Memory
unlink elem m =
    let m1 = set_next (m.prev elem) (m.next elem) m in set_prev (m1.next elem) (m1.prev elem) m1

unfoldable pub remove : (elem : ℕ) → Memory → Run (ℕ × Memory)
remove elem m = do assert (is_interior m elem); let m' = unlink elem m; ok (m'.next elem, m')

unfoldable pub is_empty : (list : ℕ) → Memory → Run Bool
is_empty list m = do first ← begin list m; tail ← end list; ok (first == tail)

unfoldable pub front : (list : ℕ) → Memory → Run ℕ
front list m = do empty ← is_empty list m; assert (not empty); ok (m.next (head_of list))

unfoldable pub back : (list : ℕ) → Memory → Run ℕ
back list m = do empty ← is_empty list m; assert (not empty); ok (m.prev (tail_of list))

unfoldable pub pop_front : (list : ℕ) → Memory → Run (ℕ × Memory)
pop_front list m = do elem ← front list m; (_, m') ← remove elem m; ok (elem, m')

unfoldable pub pop_back : (list : ℕ) → Memory → Run (ℕ × Memory)
pop_back list m = do elem ← back list m; (_, m') ← remove elem m; ok (elem, m')
