-- ===== src/Stdlib/Search.antt =====
-- binary_search of lib/stdlib.c: it ends, and finds the key where it is.
use native.Mathlib.Nat.{mul-div_cancel}
use implso.Prelude.{
  ℕ, zero, suc, ◌+◌, ◌-◌, ◌*◌, ◌/◌, ◌≤◌, ◌<◌, ◌≡◌, ◌≢◌, refl, sym, ap, ◌∙◌, Bool, true, false,
  Option, none, some, ltb, arith, Bool-cases, inl, inr,
}
use implso.Prelude.Run.{Returns, returns}
use implso.Strings.{Memory, ℤ, pos, negsuc}
use implso.Stdlib.{Order, is_positive, middle_of, search_loop, binary_search}

abbrev pub is_negative : ℤ → Bool
is_negative (pos n) = false
is_negative (negsuc n) = true

-- The comparisons of the key with the elements, in their order: the key is greater than those of a
-- first part, and smaller than those of a last part.
pub record IsSorted (at : ℕ → ℤ) (cnt : ℕ) : Type 0 where
  pub smaller : (i j : ℕ) → i ≤ j → j < cnt → is_negative (at i) ≡ true → is_negative (at j) ≡ true
  pub greater : (i j : ℕ) → i ≤ j → j < cnt → is_positive (at j) ≡ true → is_positive (at i) ≡ true

-- An element that compares equal, or none where all compare unequal.
pub data FoundKey (at : ℕ → ℤ) (address : ℕ → ℕ) (cnt : ℕ) : Option ℕ → Type 0 where
  hit : (i : ℕ) → i < cnt → at i ≡ pos 0 → FoundKey at address cnt (some (address i))
  miss : ((i : ℕ) → i < cnt → at i ≢ pos 0) → FoundKey at address cnt none

range_lem :
    (array lo k size : ℕ) → 0 < size → (array + (lo + k) * size - (array + lo * size)) / size ≡ k
range_lem array lo k size some_size =
    let e : array + (lo + k) * size - (array + lo * size) ≡ k * size = omega arith in
    ap (λ d. d / size) e ∙ mul-div_cancel k some_size

middle_lem :
    (array lo k size : ℕ)
    → 0 < size
    → middle_of (array + lo * size) (array + (lo + k) * size) size ≡ array + (lo + k / 2) * size
unfolding middle_of
middle_lem array lo k size some_size = rw (range_lem array lo k size some_size) (omega arith)

order_lem :
    (array lo k size : ℕ) → 0 < size → ltb (array + lo * size) (array + (lo + suc k) * size) ≡ true
order_lem array lo k size some_size =
    let e : array + lo * size < array + (lo + suc k) * size = omega (arith, some_size) in
    ground (arith, e)

sign-cases : (c : ℤ) → is_positive c ≡ true → c ≢ pos 0
sign-cases (pos zero) p = λ e. ground (arith, p)
sign-cases (pos (suc n)) p = λ e. ground (arith, e)
sign-cases (negsuc n) p = λ e. ground (arith, p)

negative-cases : (c : ℤ) → is_negative c ≡ true → c ≢ pos 0
negative-cases (pos n) p = λ e. ground (arith, p)
negative-cases (negsuc n) p = λ e. ground (arith, e)

module _ (compare : ℕ → ℤ) (array cnt size : ℕ) (some_size : 0 < size) where
  -- What the loop does on the `k` elements from `lo` on.
  abbrev Searches : ℕ → Type 0
  Searches fuel =
      (lo k : ℕ)
      → k < fuel
      → lo + k ≤ cnt
      → ((i : ℕ) → i < lo → is_positive (compare (array + i * size)) ≡ true)
      → ((i : ℕ) → lo + k ≤ i → i < cnt → is_negative (compare (array + i * size)) ≡ true)
      → Returns (FoundKey (λ i. compare (array + i * size)) (λ i. array + i * size) cnt)
          (search_loop compare fuel (array + lo * size) (array + (lo + k) * size) size)

  module _ (sorted : IsSorted (λ i. compare (array + i * size)) cnt) where
    turn_lem :
        (fuel lo k : ℕ) (c : ℤ)
        → Searches fuel
        → k < fuel
        → lo + suc k ≤ cnt
        → ((i : ℕ) → i < lo → is_positive (compare (array + i * size)) ≡ true)
        → ((i : ℕ) → lo + suc k ≤ i → i < cnt → is_negative (compare (array + i * size)) ≡ true)
        → compare (array + (lo + suc k / 2) * size) ≡ c
        → Returns
            (FoundKey (λ i. compare (array + i * size)) (λ i. array + i * size) cnt)
            (search_loop compare (suc fuel) (array + lo * size) (array + (lo + suc k) * size) size)
    unfolding search_loop
    turn_lem fuel lo k (pos zero) ih enough fits low high q =
        let e = middle_lem array lo (suc k) size some_size in
        rw (search_loop, order_lem array lo k size some_size, e, q, e)
          (returns (hit (lo + suc k / 2) (omega (arith, fits)) q))
    turn_lem fuel lo k (pos (suc n)) ih enough fits low high q =
        let e = middle_lem array lo (suc k) size some_size in
        let f : array + (lo + suc k / 2) * size + size ≡ array + (lo + suc k / 2 + 1) * size =
          omega arith in
        let k' = suc k - suc k / 2 - 1 in
        let g : lo + suc k ≡ lo + suc k / 2 + 1 + k' = omega arith in
        rw (search_loop, order_lem array lo k size some_size, e, q, e, f, g)
          (ih (lo + suc k / 2 + 1) k' (omega (arith, enough)) (omega (arith, fits))
            (λ i lt.
              sorted.greater i (lo + suc k / 2) (omega arith) (omega (arith, fits)) (rw q refl))
            (λ i lo' lt. high i (omega (arith, lo')) lt))
    turn_lem fuel lo k (negsuc n) ih enough fits low high q =
        let e = middle_lem array lo (suc k) size some_size in
        rw (search_loop, order_lem array lo k size some_size, e, q, e)
          (ih lo (suc k / 2) (omega (arith, enough)) (omega (arith, fits)) low
            (λ i lo' lt. sorted.smaller (lo + suc k / 2) i lo' lt (rw q refl)))

    search_loop_lem : (fuel : ℕ) → Searches fuel
    unfolding search_loop
    search_loop_lem zero lo k enough fits low high = absurd (omega (arith, enough))
    search_loop_lem (suc fuel) lo zero enough fits low high =
        let e : lo + zero ≡ lo = omega arith in
        let z : ltb (array + lo * size) (array + lo * size) ≡ false = ground arith in
        rw (search_loop, e, z)
          (returns (
            miss λ i lt. elim (Bool-cases (ltb i lo)) [
              | inl b ↦ sign-cases _ (low i (ground (arith, b)))
              | inr b ↦ negative-cases _ (high i (ground (arith, b)) lt)
            ]))
    search_loop_lem (suc fuel) lo (suc k) enough fits low high =
        turn_lem fuel lo k (compare (array + (lo + suc k / 2) * size)) (search_loop_lem fuel)
          (omega (arith, enough)) fits low high refl

-- binary_search for a key in an array that is sorted as far as the comparisons with the key tell,
-- with elements of a positive size, ends with more fuel than there are elements. It returns the
-- address of an element that compares equal to the key, or none where none does.
pub binary_search_lem :
    (compare : Order) (fuel key array cnt size : ℕ) (m : Memory)
    → 0 < size
    → IsSorted (λ i. compare m key (array + i * size)) cnt
    → cnt < fuel
    → Returns
        (FoundKey (λ i. compare m key (array + i * size)) (λ i. array + i * size) cnt)
        (binary_search compare fuel key array cnt size m)
unfolding binary_search
binary_search_lem compare fuel key array cnt size m some_size sorted enough =
    let e : array + (0 + cnt) * size ≡ array + size * cnt = omega arith in
    let f : array + 0 * size ≡ array = omega arith in
    let found =
      search_loop_lem (compare m key) array cnt size some_size sorted fuel 0 cnt enough
        (omega arith) (λ i lt. absurd (omega (arith, lt)))
        (λ i lo lt. absurd (omega (arith, lo, lt))) in
    rw (sym e) (rw f at found)
