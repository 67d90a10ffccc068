-- ===== src/Kernel/Hash/Power.antt =====
-- The number of buckets in lib/kernel/hash.c: powers of 2, and the loop that finds one.
use Prim.Native.Nat.{bit_and, digits, min, bit_and-bitwise}
use native.Mathlib.Nat.{pow-suc, one-le-pow}
use implso.Prelude.{
  ℕ, zero, suc, ◌-◌, ◌*◌, ◌/◌, ◌%◌, ◌^◌, ◌≤◌, ◌<◌, ◌≡◌, ◌≢◌, true, false, ◌&&◌, arith, ltb, ◌==◌,
  Bool-cases, inl, inr, ◌⊎◌,
}
use implso.Prelude.Run.{Returns, returns, mono}
use implso.Bits.{test_bit, test_bit-and, test_bit-zero, eq_zero}
use implso.Kernel.Hash.{
  Hash, before, turn_off_least_1bit, is_power_of_2, power_loop, new_bucket_cnt,
}

before_lem : (x : ℕ) → x ≢ 0 → x < 2 ^ 32 → before x ≡ x - 1
before_lem x n h = omega (arith, n)

digits_le : (n a b : ℕ) → a ≤ n → digits (λ b. 0) min n a b ≤ b
digits_le zero zero b h = omega arith
digits_le zero (suc a) b h = absurd (omega arith)
digits_le (suc n) zero b h = omega arith
digits_le (suc n) (suc a) b h = omega (arith, digits_le n (suc a / 2) (b / 2) (omega arith))

pub bit_and_le : (a b : ℕ) → bit_and a b ≤ b
bit_and_le a b = rw bit_and-bitwise (digits_le a a b (omega arith))

pub turn_off_lt : (x : ℕ) → x ≢ 0 → x < 2 ^ 32 → turn_off_least_1bit x < x
unfolding turn_off_least_1bit
turn_off_lt x n h = rw (before_lem x n h) (omega (arith, bit_and_le x (x - 1), n))

abbrev pub IsPower : ℕ → Type 0
IsPower x = (k : ℕ) × (x ≡ 2 ^ k)

bits-IsPower :
    (n x : ℕ) → x ≤ n → x ≢ 0 → ((k : ℕ) → (test_bit x k && test_bit (x - 1) k) ≡ false) → IsPower x
unfolding test_bit
bits-IsPower zero x h z low = absurd (z (omega arith))
bits-IsPower (suc n) x h z low = elim (Bool-cases (x % 2 == 0)) [
  | inl even ↦
      let r : x % 2 ≡ 0 = ground arith in
      let q : (x - 1) / 2 ≡ x / 2 - 1 = omega (arith, r, z) in
      let (k, e) =
        bits-IsPower n (x / 2) (omega (arith, z)) (λ f. z (omega (arith, f, r)))
          (λ k. rw q at (low (suc k))) in
      (suc k, omega (arith, e, r, pow-suc 2 k))
  | inr odd ↦
      let r : x % 2 ≡ 1 = ground arith in
      let q : (x - 1) / 2 ≡ x / 2 = omega (arith, r, z) in
      let e : x / 2 ≡ 0 = eq_zero (x / 2) (λ k. ground (arith, rw q at (low (suc k)))) in
      (0, omega (arith, e, r))
]

pub is_power_of_2-IsPower : (x : ℕ) → x < 2 ^ 32 → is_power_of_2 x ≡ true → IsPower x
unfolding is_power_of_2 turn_off_least_1bit
is_power_of_2-IsPower x h e =
    let z : x ≢ 0 = ground (arith, e) in
    let b : bit_and x (x - 1) ≡ 0 = ground (arith, e, before_lem x z h) in
    bits-IsPower x x (omega arith) z
      (λ k. ground (arith, test_bit-and x (x - 1) k, test_bit-zero k, b))

off_nonzero : (x : ℕ) → x ≢ 0 → is_power_of_2 x ≡ false → turn_off_least_1bit x ≢ 0
unfolding is_power_of_2
off_nonzero x z e = λ f. ground (arith, e, f, z)

pub power_loop_lem :
    (fuel x : ℕ)
    → x ≤ fuel
    → x ≢ 0
    → x < 2 ^ 32
    → Returns (λ r. IsPower r × (r ≤ x)) (power_loop fuel x)
unfolding power_loop
power_loop_lem zero x h z w = absurd (z (omega arith))
power_loop_lem (suc fuel) x h z w = elim (Bool-cases (is_power_of_2 x)) [
  | inl e ↦ rw (power_loop, e) (returns (is_power_of_2-IsPower x w e, omega arith))
  | inr e ↦
      let lt = turn_off_lt x z w in
      rw (power_loop, e)
        (mono
          (power_loop_lem fuel (turn_off_least_1bit x) (omega (arith, lt)) (off_nonzero x z e)
            (omega (arith, lt)))
          (λ r p. (p.0, omega (arith, p.1, lt))))
]

-- For a table with fewer than 2^32 elements, the loop of rehash that turns bits off ends: the new
-- number of buckets is a power of 2, and at most 4 or at most half the number of elements.
pub new_bucket_cnt_lem :
    (h : Hash)
    → h.elem_cnt < 2 ^ 32
    → Returns (λ cnt. IsPower cnt × ((cnt ≤ 4) ⊎ (2 * cnt ≤ h.elem_cnt))) (new_bucket_cnt h)
unfolding new_bucket_cnt
new_bucket_cnt_lem h w = elim (Bool-cases (ltb (h.elem_cnt / 2) 4)) [
  | inl few ↦ rw few (
      mono (power_loop_lem 4 4 (omega arith) (λ f. omega (arith, f)) (omega arith))
        (λ r p. (p.0, inl p.1)))
  | inr many ↦
      let ge : 4 ≤ h.elem_cnt / 2 = ground arith in
      rw many (
        mono
          (power_loop_lem _ (h.elem_cnt / 2) (omega arith) (λ f. omega (arith, f, ge))
            (omega arith))
          (λ r p. (p.0, inr (omega (arith, p.1)))))
]

-- An index into the buckets, where their number is a power of 2.
pub index_lt : (x cnt : ℕ) → IsPower cnt → cnt < 2 ^ 32 → bit_and x (before cnt) < cnt
index_lt x cnt (k, e) w =
    let p = one-le-pow k 2 in
    rw (before_lem cnt (ground (arith, e, p)) w) (omega (arith, bit_and_le x (cnt - 1), e, p))
