-- ===== src/Kernel/Linked/Loops.antt =====
-- lib/kernel/list.c on the memory: the operations that pass over a list. The loops run on fuel, one
-- unit for each round; without fuel they panic.
use implso.Prelude.{ℕ, zero, suc, ◌+◌, Bool, true, false, not, ◌&&◌, ◌==◌, if◌then◌else◌}
use implso.Prelude.Run.{Run, ok, panic, ◌>>=◌, ◌>>◌, assert}
use implso.Kernel.Linked.{
  Memory, null, set_next, set_prev, head_of, tail_of, begin, next_of, end, insert, push_back,
  remove, is_empty,
}

unfoldable pub size_loop : (fuel : ℕ) (e tail : ℕ) → Memory → (cnt : ℕ) → Run ℕ
size_loop zero e tail m cnt = panic
size_loop (suc fuel) e tail m cnt = elim (e == tail) [
  | true ↦ ok cnt
  | false ↦ do e' ← next_of e m; size_loop fuel e' tail m (cnt + 1)
]

unfoldable pub size : (fuel : ℕ) (list : ℕ) → Memory → Run ℕ
size fuel list m = do e ← begin list m; tail ← end list; size_loop fuel e tail m 0

-- `swap (&e->prev, &e->next)`
unfoldable pub swap_links : (e : ℕ) → Memory → Memory
swap_links e m = set_next e (m.prev e) (set_prev e (m.next e) m)

-- `e = e->prev` is after the swap.
unfoldable pub reverse_loop : (fuel : ℕ) (e tail : ℕ) → Memory → Run Memory
reverse_loop zero e tail m = panic
reverse_loop (suc fuel) e tail m = elim (e == tail) [
  | true ↦ ok m
  | false ↦ let m' = swap_links e m in reverse_loop fuel (m'.prev e) tail m'
]

-- `swap (&list->head.next, &list->tail.prev)`
unfoldable pub swap_ends : (list : ℕ) → Memory → Memory
swap_ends list m =
    set_prev (tail_of list) (m.next (head_of list))
      (set_next (head_of list) (m.prev (tail_of list)) m)

-- `swap (&list->head.next->prev, &list->tail.prev->next)`
unfoldable pub swap_inner : (list : ℕ) → Memory → Memory
swap_inner list m =
    let first = m.next (head_of list) in
    let last = m.prev (tail_of list) in
    set_next last (m.prev first) (set_prev first (m.next last) m)

unfoldable pub reverse : (fuel : ℕ) (list : ℕ) → Memory → Run Memory
reverse fuel list m = do
  empty ← is_empty list m
  if empty then ok m else (do
    e ← begin list m
    tail ← end list
    m' ← reverse_loop fuel e tail m
    ok (swap_inner list (swap_ends list m')))

-- The element that the loop of list_insert_ordered stops at.
unfoldable pub place_loop : (less : ℕ → ℕ → Bool) (fuel : ℕ) (elem e tail : ℕ) → Memory → Run ℕ
place_loop less zero elem e tail m = panic
place_loop less (suc fuel) elem e tail m = elim (e == tail) [
  | true ↦ ok e
  | false ↦ elim (less elem e) [
    | true ↦ ok e
    | false ↦ do e' ← next_of e m; place_loop less fuel elem e' tail m
  ]
]

unfoldable pub insert_ordered :
    (less : ℕ → ℕ → Bool) (fuel : ℕ) (list elem : ℕ) → Memory → Run Memory
insert_ordered less fuel list elem m = do
  assert (not (list == null))
  assert (not (elem == null))
  first ← begin list m
  tail ← end list
  e ← place_loop less fuel elem first tail m
  insert e elem m

-- `if (duplicates != NULL) list_push_back (duplicates, next);`
unfoldable pub keep_duplicate : (duplicates next : ℕ) → Memory → Run Memory
keep_duplicate duplicates next m = if duplicates == null then ok m else push_back duplicates next m

unfoldable pub unique_loop :
    (less : ℕ → ℕ → Bool) (fuel : ℕ) (duplicates elem tail : ℕ) → Memory → Run Memory
unique_loop less zero duplicates elem tail m = panic
unique_loop less (suc fuel) duplicates elem tail m = do
  next ← next_of elem m
  elim (next == tail) [
    | true ↦ ok m
    | false ↦ elim (not (less elem next) && not (less next elem)) [
      | true ↦ do
        (_, m1) ← remove next m
        m2 ← keep_duplicate duplicates next m1
        unique_loop less fuel duplicates elem tail m2
      | false ↦ unique_loop less fuel duplicates next tail m
    ]
  ]

unfoldable pub unique : (less : ℕ → ℕ → Bool) (fuel : ℕ) (list duplicates : ℕ) → Memory → Run Memory
unique less fuel list duplicates m = do
  assert (not (list == null))
  empty ← is_empty list m
  if empty
      then ok m
      else (do elem ← begin list m; tail ← end list; unique_loop less fuel duplicates elem tail m)

-- The loop of list_max, and of list_min with the arguments of LESS exchanged.
unfoldable pub best_loop : (better : ℕ → ℕ → Bool) (fuel : ℕ) (best e tail : ℕ) → Memory → Run ℕ
best_loop better zero best e tail m = panic
best_loop better (suc fuel) best e tail m = elim (e == tail) [
  | true ↦ ok best
  | false ↦ do e' ← next_of e m; best_loop better fuel (if better best e then e else best) e' tail m
]

unfoldable pub best : (better : ℕ → ℕ → Bool) (fuel : ℕ) (list : ℕ) → Memory → Run ℕ
best better fuel list m = do
  first ← begin list m
  tail ← end list
  if first == tail then ok first else (do e ← next_of first m; best_loop better fuel first e tail m)

unfoldable pub max : (less : ℕ → ℕ → Bool) (fuel : ℕ) (list : ℕ) → Memory → Run ℕ
max less fuel list m = best (λ chosen e. less chosen e) fuel list m

unfoldable pub min : (less : ℕ → ℕ → Bool) (fuel : ℕ) (list : ℕ) → Memory → Run ℕ
min less fuel list m = best (λ chosen e. less e chosen) fuel list m
