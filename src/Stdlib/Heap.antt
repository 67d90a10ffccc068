-- ===== src/Stdlib/Heap.antt =====
-- sort of lib/stdlib.c: it ends, and writes within the array.
use native.Mathlib.Nat.{mul-le-mul_right}
use implso.Prelude.{
  ℕ, zero, suc, ◌+◌, ◌-◌, ◌*◌, ◌/◌, ◌≤◌, ◌<◌, ◌≡◌, ◌≢◌, ◌⊎◌, refl, ◌∙◌, true, false, not, ◌||◌,
  ◌&&◌, ltb, leb, ◌==◌, arith, Bool-cases, inl, inr,
}
use implso.Prelude.Run
use implso.Prelude.Run.{Run, ok, ◌>>=◌, Returns, returns, pass}
use implso.Strings.{Memory}
use implso.Stdlib.{
  Order, swap_loop, do_swap, do_compare, is_positive, greater, heapify, build_loop, sort_loop, sort,
}

-- The bytes outside of `cnt` elements from `array` on are the same.
abbrev pub SameOutside : (array cnt size : ℕ) (m m' : Memory) → Type 0
SameOutside array cnt size m m' = (x : ℕ) → (x < array) ⊎ (array + cnt * size ≤ x) → m' x ≡ m x

swap_loop_lem :
    (n a b : ℕ) (m : Memory) (x : ℕ)
    → (x < a) ⊎ (a + n ≤ x)
    → (x < b) ⊎ (b + n ≤ x)
    → swap_loop n a b m x ≡ m x
unfolding swap_loop
swap_loop_lem zero a b m x p q = refl
swap_loop_lem (suc n) a b m x p q =
    swap_loop_lem n (a + 1) (b + 1) _ x (ground (arith, p)) (ground (arith, q))
    ∙ ground (arith, p, q)

module _ (array cnt size : ℕ) where
  slot_within : (i : ℕ) → 0 < i → i ≤ cnt → (i - 1) * size + size ≤ cnt * size
  slot_within zero some_i le = absurd (omega (arith, some_i))
  slot_within (suc i) some_i le =
      let e : suc i - 1 ≡ i = omega arith in
      let l : suc i * size ≤ cnt * size = mul-le-mul_right size le in rw e (omega (arith, l))

  do_swap-SameOutside :
      (i j : ℕ) (m : Memory)
      → 0 < i
      → i ≤ cnt
      → 0 < j
      → j ≤ cnt
      → SameOutside array cnt size m (do_swap array i j size m)
  unfolding do_swap
  do_swap-SameOutside i j m p q r s x out =
      swap_loop_lem size _ _ m x (omega (arith, out, slot_within i p q))
        (omega (arith, out, slot_within j r s))

SameOutside-trans :
    (array cnt size : ℕ) {m m' m'' : Memory}
    → SameOutside array cnt size m m'
    → SameOutside array cnt size m' m''
    → SameOutside array cnt size m m''
SameOutside-trans array cnt size p q x out = q x out ∙ p x out

widen :
    (array k cnt size : ℕ) {m m' : Memory}
    → k ≤ cnt
    → SameOutside array k size m m'
    → SameOutside array cnt size m m'
widen array k cnt size le p x out =
    let l : k * size ≤ cnt * size = mul-le-mul_right size le in p x (omega (arith, out, l))

module _ (compare : Order) (array size : ℕ) where
  greater-cases :
      (child max cnt : ℕ) (m : Memory)
      → (greater compare array child max cnt size m ≡ max)
        ⊎ ((greater compare array child max cnt size m ≡ child) × (child ≤ cnt))
  unfolding greater
  greater-cases child max cnt m =
      elim (Bool-cases (leb child cnt && is_positive (do_compare compare array child max size m))) [
        | inl e ↦ inr (rw e refl, ground (arith, e))
        | inr e ↦ inl (rw e refl)
      ]

  largest : (i cnt : ℕ) → Memory → ℕ
  largest i cnt m =
      greater compare array (2 * i + 1) (greater compare array (2 * i) i cnt size m) cnt size m

  largest-cases :
      (i cnt : ℕ) (m : Memory)
      → 0 < i
      → (largest i cnt m ≡ i) ⊎ ((i < largest i cnt m) × (largest i cnt m ≤ cnt))
  unfolding largest
  largest-cases i cnt m some_i =
      elim (greater-cases (2 * i + 1) (greater compare array (2 * i) i cnt size m) cnt m) [
        | inr (e, le) ↦ inr (omega (arith, e, some_i), omega (arith, e, le))
        | inl e ↦ elim (greater-cases (2 * i) i cnt m) [
          | inl f ↦ inl (e ∙ f)
          | inr (f, le) ↦ inr (omega (arith, e, f, some_i), omega (arith, e, f, le))
        ]
      ]

  heapify_lem :
      (fuel i cnt : ℕ) (m : Memory)
      → 0 < i
      → i ≤ cnt
      → cnt < fuel + i
      → Returns (SameOutside array cnt size m) (heapify compare fuel array i cnt size m)
  unfolding heapify largest
  heapify_lem zero i cnt m some_i le enough = absurd (omega (arith, le, enough))
  heapify_lem (suc fuel) i cnt m some_i le enough = elim (largest-cases i cnt m some_i) [
    | inl e ↦
        let q : (largest i cnt m == i) ≡ true = ground (arith, e) in
        rw (heapify, q) (returns (λ x out. refl))
    | inr (gt, within) ↦
        let q : (largest i cnt m == i) ≡ false = ground (arith, gt) in
        rw (heapify, q)
          (Run.mono
            (heapify_lem fuel (largest i cnt m) cnt (do_swap array i (largest i cnt m) size m)
              (omega (arith, gt)) within (omega (arith, gt, enough)))
            (λ m' p.
              SameOutside-trans array cnt size
                (do_swap-SameOutside array cnt size i (largest i cnt m) m some_i le
                  (omega (arith, gt)) within)
                p))
  ]

  build_loop_lem :
      (i cnt : ℕ) (m : Memory)
      → i ≤ cnt
      → Returns (SameOutside array cnt size m) (build_loop compare i array cnt size m)
  unfolding build_loop
  build_loop_lem zero cnt m le = returns (λ x out. refl)
  build_loop_lem (suc i) cnt m le =
      Run.bind (heapify_lem (cnt + 1) (suc i) cnt m (omega arith) le (omega arith)) (λ m' p.
        Run.mono (build_loop_lem i cnt m' (omega (arith, le)))
          (λ m'' q. SameOutside-trans array cnt size p q))

  sort_loop_lem :
      (i cnt : ℕ) (m : Memory)
      → i < cnt
      → Returns (SameOutside array cnt size m) (sort_loop compare i array size m)
  unfolding sort_loop
  sort_loop_lem zero cnt m lt = returns (λ x out. refl)
  sort_loop_lem (suc i) cnt m lt =
      Run.bind
        (heapify_lem (suc i + 1) 1 (suc i) (do_swap array 1 (suc i + 1) size m) (omega arith)
          (omega arith) (omega arith))
        (λ m' p. Run.mono (sort_loop_lem i cnt m' (omega (arith, lt))) (λ m'' q.
          SameOutside-trans array cnt size
            (do_swap-SameOutside array cnt size 1 (suc i + 1) m (omega arith) (omega (arith, lt))
              (omega arith) (omega (arith, lt)))
            (SameOutside-trans array cnt size (widen array (suc i) cnt size (omega (arith, lt)) p)
              q)))

  -- sort of an array that is not at null, with at least an element and elements of a positive size,
  -- ends without a panic, whatever the order, and changes no byte outside of the array. The fuel
  -- that it gives to heapify is enough.
  pub sort-SameOutside :
      (cnt : ℕ) (m : Memory)
      → array ≢ 0
      → 0 < cnt
      → 0 < size
      → Returns (SameOutside array cnt size m) (sort compare array cnt size m)
  unfolding sort
  sort-SameOutside cnt m ne some some_size =
      pass {b = not (array == 0) || (cnt == 0)} (ground (arith, ne)) (
        pass {b = ltb 0 size} (ground (arith, some_size)) (
          Run.bind (build_loop_lem (cnt / 2) cnt m (omega arith)) (λ m' p.
            Run.mono (sort_loop_lem (cnt - 1) cnt m' (omega (arith, some)))
              (λ m'' q. SameOutside-trans array cnt size p q))))
