-- ===== src/Kernel/Linked/Sort.antt =====
-- lib/kernel/list.c on the memory: list_sort, which merges adjacent runs, pass after pass, until
-- one is left. The fuel counts the rounds of each loop.
use implso.Prelude.{ℕ, zero, suc, ◌+◌, Bool, true, false, not, ◌==◌, ltb, if◌then◌else◌}
use implso.Prelude.Run.{Run, ok, panic, ◌>>=◌, ◌>>◌, assert}
use implso.Kernel.Linked.{Memory, null, begin, next_of, prev_of, end, splice}

module _ (less : ℕ → ℕ → Bool) where
  unfoldable pub is_sorted_loop : (fuel : ℕ) (a b : ℕ) → Memory → Run Bool
  is_sorted_loop zero a b m = panic
  is_sorted_loop (suc fuel) a b m = do
    a' ← next_of a m
    elim (a' == b) [
      | true ↦ ok true
      | false ↦ do
        before ← prev_of a' m
        elim (less a' before) [ true ↦ ok false | false ↦ is_sorted_loop fuel a' b m ]
    ]

  unfoldable pub is_sorted : (fuel : ℕ) (a b : ℕ) → Memory → Run Bool
  is_sorted fuel a b m = if a == b then ok true else is_sorted_loop fuel a b m

  unfoldable pub run_loop : (fuel : ℕ) (a b : ℕ) → Memory → Run ℕ
  run_loop zero a b m = panic
  run_loop (suc fuel) a b m = do
    a' ← next_of a m
    elim (a' == b) [
      | true ↦ ok a'
      | false ↦ do
        before ← prev_of a' m
        elim (less a' before) [ true ↦ ok a' | false ↦ run_loop fuel a' b m ]
    ]

  unfoldable pub find_end_of_run : (fuel : ℕ) (a b : ℕ) → Memory → Run ℕ
  find_end_of_run fuel a b m = do
    assert (not (a == null))
    assert (not (b == null))
    assert (not (a == b))
    run_loop fuel a b m

  unfoldable pub merge_loop : (fuel : ℕ) (a0 a1b0 b1 : ℕ) → Memory → Run Memory
  merge_loop zero a0 a1b0 b1 m = panic
  merge_loop (suc fuel) a0 a1b0 b1 m = elim (a0 == a1b0) [
    | true ↦ ok m
    | false ↦ elim (a1b0 == b1) [
      | true ↦ ok m
      | false ↦ elim (less a1b0 a0) [
        | false ↦ do a0' ← next_of a0 m; merge_loop fuel a0' a1b0 b1 m
        | true ↦ do
          after ← next_of a1b0 m
          first ← prev_of after m
          m' ← splice a0 first after m
          merge_loop fuel a0 after b1 m'
      ]
    ]
  ]

  unfoldable pub inplace_merge : (fuel : ℕ) (a0 a1b0 b1 : ℕ) → Memory → Run Memory
  inplace_merge fuel a0 a1b0 b1 m = do
    assert (not (a0 == null))
    assert (not (a1b0 == null))
    assert (not (b1 == null))
    left ← is_sorted fuel a0 a1b0 m
    assert left
    right ← is_sorted fuel a1b0 b1 m
    assert right
    merge_loop fuel a0 a1b0 b1 m

  -- A pass from `a0`, which has output `output_run_cnt` runs. It gives the number of all.
  unfoldable pub pass_loop :
      (fuel inner : ℕ) (a0 tail output_run_cnt : ℕ) → Memory → Run (ℕ × Memory)
  pass_loop zero inner a0 tail output_run_cnt m = panic
  pass_loop (suc fuel) inner a0 tail output_run_cnt m = elim (a0 == tail) [
    | true ↦ ok (output_run_cnt, m)
    | false ↦ do
      a1b0 ← find_end_of_run inner a0 tail m
      elim (a1b0 == tail) [
        | true ↦ ok (output_run_cnt + 1, m)
        | false ↦ do
          b1 ← find_end_of_run inner a1b0 tail m
          m' ← inplace_merge inner a0 a1b0 b1 m
          pass_loop fuel inner b1 tail (output_run_cnt + 1) m'
      ]
  ]

  unfoldable pub sort_loop : (fuel inner : ℕ) (list : ℕ) → Memory → Run Memory
  sort_loop zero inner list m = panic
  sort_loop (suc fuel) inner list m = do
    a0 ← begin list m
    tail ← end list
    (output_run_cnt, m') ← pass_loop inner inner a0 tail 0 m
    elim (ltb 1 output_run_cnt) [ true ↦ sort_loop fuel inner list m' | false ↦ ok m' ]

  unfoldable pub sort : (fuel : ℕ) (list : ℕ) → Memory → Run Memory
  sort fuel list m = do
    assert (not (list == null))
    m' ← sort_loop fuel fuel list m
    a ← begin list m'
    b ← end list
    sorted ← is_sorted fuel a b m'
    assert sorted
    ok m'
