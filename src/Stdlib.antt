-- ===== src/Stdlib.antt =====
-- lib/stdlib.c on the memory of Strings: heap sort, binary search and atoi. An order is a function of
-- the memory and two addresses; the auxiliary data that the source passes to it are part of it.
pub mod Heap
pub mod Search
use implso.Prelude.{
  ℕ, zero, suc, ◌+◌, ◌-◌, ◌*◌, ◌/◌, Bool, true, false, not, ◌&&◌, ◌||◌, Option, none, some, ltb,
  leb, ◌==◌, if◌then◌else◌,
}
use implso.Prelude.Run.{Run, ok, panic, ◌>>=◌, ◌>>◌, assert}
use implso.Strings.{Memory, store, ℤ, pos, negsuc}

abbrev pub Order : Type 0
Order = Memory → (a b : ℕ) → ℤ

-- The loop of do_swap, by the rounds that are left, over the bytes at `a` and `b`.
unfoldable pub swap_loop : (rounds a b : ℕ) → Memory → Memory
swap_loop zero a b m = m
swap_loop (suc n) a b m = swap_loop n (a + 1) (b + 1) (store b (m a) (store a (m b) m))

unfoldable pub do_swap : (array a_idx b_idx size : ℕ) → Memory → Memory
do_swap array a_idx b_idx size m =
    swap_loop size (array + (a_idx - 1) * size) (array + (b_idx - 1) * size) m

unfoldable pub do_compare : Order → (array a_idx b_idx size : ℕ) → Memory → ℤ
do_compare compare array a_idx b_idx size m =
    compare m (array + (a_idx - 1) * size) (array + (b_idx - 1) * size)

abbrev pub is_positive : ℤ → Bool
is_positive (pos zero) = false
is_positive (pos (suc n)) = true
is_positive (negsuc n) = false

-- `if (child <= cnt && do_compare (array, child, max, size, compare, aux) > 0) max = child;`
unfoldable pub greater : Order → (array child max cnt size : ℕ) → Memory → ℕ
greater compare array child max cnt size m =
    if leb child cnt && is_positive (do_compare compare array child max size m) then child else max

-- Each round goes from `i` to a child of it, so a unit of fuel for each element is enough.
unfoldable pub heapify : Order → (fuel array i cnt size : ℕ) → Memory → Run Memory
heapify compare zero array i cnt size m = panic
heapify compare (suc fuel) array i cnt size m =
    let left = greater compare array (2 * i) i cnt size m in
    let max = greater compare array (2 * i + 1) left cnt size m in
    elim (max == i) [
      | true ↦ ok m
      | false ↦ heapify compare fuel array max cnt size (do_swap array i max size m)
    ]

-- The loop that builds a heap, from `i` down.
unfoldable pub build_loop : Order → (i array cnt size : ℕ) → Memory → Run Memory
build_loop compare zero array cnt size m = ok m
build_loop compare (suc i) array cnt size m = do
  m' ← heapify compare (cnt + 1) array (suc i) cnt size m
  build_loop compare i array cnt size m'

-- The loop that sorts the heap, from `i + 1` down to 2.
unfoldable pub sort_loop : Order → (i array size : ℕ) → Memory → Run Memory
sort_loop compare zero array size m = ok m
sort_loop compare (suc i) array size m = do
  m' ← heapify compare (suc i + 1) array 1 (suc i) size (do_swap array 1 (suc i + 1) size m)
  sort_loop compare i array size m'

unfoldable pub sort : Order → (array cnt size : ℕ) → Memory → Run Memory
sort compare array cnt size m = do
  assert (not (array == 0) || (cnt == 0))
  assert (ltb 0 size)
  m' ← build_loop compare (cnt / 2) array cnt size m
  sort_loop compare (cnt - 1) array size m'

unfoldable pub middle_of : (first last size : ℕ) → ℕ
middle_of first last size = let range = (last - first) / size in first + range / 2 * size

-- The loop of binary_search, where `compare` compares the key with an element. A unit of fuel is a
-- round, and it panics without fuel.
unfoldable pub search_loop : (compare : ℕ → ℤ) (fuel first last size : ℕ) → Run (Option ℕ)
search_loop compare zero first last size = panic
search_loop compare (suc fuel) first last size = elim (ltb first last) [
  | false ↦ ok none
  | true ↦ elim (compare (middle_of first last size)) [
    | negsuc n ↦ search_loop compare fuel first (middle_of first last size) size
    | pos (suc n) ↦ search_loop compare fuel (middle_of first last size + size) last size
    | pos zero ↦ ok (some (middle_of first last size))
  ]
]

unfoldable pub binary_search : Order → (fuel key array cnt size : ℕ) → Memory → Run (Option ℕ)
binary_search compare fuel key array cnt size m =
    search_loop (compare m key) fuel array (array + size * cnt) size
