-- ===== src/Bits.antt =====
-- Single bits of machine words: what `|`, `&`, `^` and `~` of C do to the bit at a position.
use Prim.Native.Nat.{
  min, max, differ, digits, bit_and, bit_or, bit_xor, bit_and-bitwise, bit_or-bitwise,
  bit_xor-bitwise,
}
use native.Mathlib.Nat.{pow-suc, one-le-pow}
use implso.Prelude.{
  ℕ, zero, suc, ◌+◌, ◌-◌, ◌*◌, ◌/◌, ◌%◌, ◌^◌, ◌≤◌, ◌<◌, ◌≡◌, refl, ◌∙◌, Bool, true, false, not,
  ◌&&◌, ◌||◌, arith, ltb, ◌==◌, same, Bool-cases, inl, inr,
}

-- The bit of `w` at position `k`, the lowest at 0.
unfoldable pub test_bit : ℕ → ℕ → Bool
test_bit w zero = w % 2 == 1
test_bit w (suc k) = test_bit (w / 2) k

pub test_bit-zero : (k : ℕ) → test_bit 0 k ≡ false
unfolding test_bit
test_bit-zero zero = refl
test_bit-zero (suc k) = test_bit-zero k

low_bit : (d r : ℕ) → r < 2 → ((d * 2 + r) % 2 == 1) ≡ (r == 1)
low_bit d r h = let e : (d * 2 + r) % 2 ≡ r = omega arith in rw e

-- A digitwise operation acts on each bit by the operation `op` on Booleans.
module _ (z : ℕ → ℕ) (f : ℕ → ℕ → ℕ) (op : Bool → Bool → Bool)
    (rest : (b k : ℕ) → test_bit (z b) k ≡ op false (test_bit b k))
    (small : (x y : ℕ) → x < 2 → y < 2 → f x y < 2)
    (digit : (x y : ℕ) → x < 2 → y < 2 → (f x y == 1) ≡ op (x == 1) (y == 1)) where
  test_bit-digits :
      (n a b k : ℕ) → a ≤ n → test_bit (digits z f n a b) k ≡ op (test_bit a k) (test_bit b k)
  unfolding test_bit
  test_bit-digits zero zero b k h = rest b k ∙ rw test_bit-zero
  test_bit-digits zero (suc a) b k h = absurd (omega arith)
  test_bit-digits (suc n) zero b k h = rest b k ∙ rw test_bit-zero
  test_bit-digits (suc n) (suc a) b zero h =
      low_bit (digits z f n (suc a / 2) (b / 2)) (f (suc a % 2) (b % 2))
        (small _ _ (omega arith) (omega arith))
      ∙ digit (suc a % 2) (b % 2) (omega arith) (omega arith)
  test_bit-digits (suc n) (suc a) b (suc k) h =
      let r = f (suc a % 2) (b % 2) in
      let lt : r < 2 = small _ _ (omega arith) (omega arith) in
      let d = digits z f n (suc a / 2) (b / 2) in
      let e : (d * 2 + r) / 2 ≡ d = omega arith in
      rw e (test_bit-digits n (suc a / 2) (b / 2) k (omega arith))

pub test_bit-or : (a b k : ℕ) → test_bit (bit_or a b) k ≡ (test_bit a k || test_bit b k)
test_bit-or a b k = rw bit_or-bitwise (
    test_bit-digits (λ b. b) max ◌||◌ (λ b k. refl) (λ x y p q. omega arith)
      (λ x y p q. ground arith) a a b k (omega arith))

pub test_bit-and : (a b k : ℕ) → test_bit (bit_and a b) k ≡ (test_bit a k && test_bit b k)
test_bit-and a b k = rw bit_and-bitwise (
    test_bit-digits (λ b. 0) min ◌&&◌ (λ b k. test_bit-zero k) (λ x y p q. omega arith)
      (λ x y p q. ground arith) a a b k (omega arith))

differ_digit :
    (x y : ℕ)
    → x < 2
    → y < 2
    → (differ x y < 2) × ((differ x y == 1) ≡ not (same (x == 1) (y == 1)))
differ_digit zero zero p q = (omega arith, refl)
differ_digit zero (suc zero) p q = (omega arith, refl)
differ_digit (suc zero) zero p q = (omega arith, refl)
differ_digit (suc zero) (suc zero) p q = (omega arith, refl)
differ_digit zero (suc (suc y)) p q = absurd (omega arith)
differ_digit (suc zero) (suc (suc y)) p q = absurd (omega arith)
differ_digit (suc (suc x)) y p q = absurd (omega arith)

pub test_bit-xor : (a b k : ℕ) → test_bit (bit_xor a b) k ≡ not (same (test_bit a k) (test_bit b k))
test_bit-xor a b k = rw bit_xor-bitwise (
    test_bit-digits (λ b. b) differ (λ x y. not (same x y)) (λ b k. ground arith)
      (λ x y p q. (differ_digit x y p q).0) (λ x y p q. (differ_digit x y p q).1) a a b k
      (omega arith))

pub test_bit-mask : (k j : ℕ) → test_bit (2 ^ k) j ≡ (k == j)
unfolding test_bit
test_bit-mask zero zero = refl
test_bit-mask zero (suc j) = test_bit-zero j ∙ ground arith
test_bit-mask (suc k) zero = ground (arith, pow-suc 2 k)
test_bit-mask (suc k) (suc j) =
    let e : 2 ^ suc k / 2 ≡ 2 ^ k = omega (arith, pow-suc 2 k) in
    rw e (test_bit-mask k j ∙ ground arith)

-- A word with no bit set is 0.
zero_below : (n w : ℕ) → w ≤ n → ((k : ℕ) → test_bit w k ≡ false) → w ≡ 0
unfolding test_bit
zero_below n zero h low = refl
zero_below zero (suc w) h low = absurd (omega arith)
zero_below (suc n) (suc w) h low =
    let e : suc w / 2 ≡ 0 = zero_below n (suc w / 2) (omega arith) (λ k. low (suc k)) in
    ground (arith, low 0)

pub eq_zero : (w : ℕ) → ((k : ℕ) → test_bit w k ≡ false) → w ≡ 0
eq_zero w low = zero_below w w (omega arith) low

masked_bit : (w k j : ℕ) → test_bit w k ≡ false → test_bit (bit_and w (2 ^ k)) j ≡ false
masked_bit w k j down = elim (Bool-cases (k == j)) [
  | inl e ↦ let k_j : k ≡ j = ground arith in test_bit-and w (2 ^ k) j ∙ rw (← k_j, down)
  | inr e ↦ test_bit-and w (2 ^ k) j ∙ rw (test_bit-mask k j, e) (ground arith)
]

-- The word with its lowest `n` bits set.
pub test_bit-ones : (n j : ℕ) → test_bit (2 ^ n - 1) j ≡ ltb j n
unfolding test_bit
test_bit-ones zero j = test_bit-zero j ∙ ground arith
test_bit-ones (suc n) zero = ground (arith, pow-suc 2 n, one-le-pow n 2)
test_bit-ones (suc n) (suc j) =
    let e : (2 ^ suc n - 1) / 2 ≡ 2 ^ n - 1 = omega (arith, pow-suc 2 n, one-le-pow n 2) in
    rw e (test_bit-ones n j ∙ ground arith)

-- A word without bits from position `n` on is below `2 ^ n`, and the other way round.
pub lt_of_bits : (n w : ℕ) → ((k : ℕ) → n ≤ k → test_bit w k ≡ false) → w < 2 ^ n
unfolding test_bit
lt_of_bits zero w high = omega (arith, eq_zero w (λ k. high k (omega arith)))
lt_of_bits (suc n) w high =
    omega (arith, pow-suc 2 n, lt_of_bits n (w / 2) (λ k h. high (suc k) (omega arith)))

pub bits_of_lt : (n w k : ℕ) → w < 2 ^ n → n ≤ k → test_bit w k ≡ false
unfolding test_bit
bits_of_lt zero w k h le = let e : w ≡ 0 = omega arith in rw e (test_bit-zero k)
bits_of_lt (suc n) w zero h le = absurd (omega arith)
bits_of_lt (suc n) w (suc k) h le =
    bits_of_lt n (w / 2) k (omega (arith, pow-suc 2 n)) (omega arith)

-- `(w & mask) != 0` tests one bit.
pub and_mask_test : (w k : ℕ) → not (bit_and w (2 ^ k) == 0) ≡ test_bit w k
and_mask_test w k = elim (Bool-cases (test_bit w k)) [
  | inl up ↦ elim (Bool-cases (bit_and w (2 ^ k) == 0)) [
    | inl e ↦
        let z : bit_and w (2 ^ k) ≡ 0 = ground arith in
        let t : test_bit (bit_and w (2 ^ k)) k ≡ true =
          test_bit-and w (2 ^ k) k ∙ rw (up, test_bit-mask k k) (ground arith) in
        cc (rw z at t, test_bit-zero k)
    | inr e ↦ rw (e, up)
  ]
  | inr down ↦
      let z : bit_and w (2 ^ k) ≡ 0 = eq_zero _ (λ j. masked_bit w k j down) in rw (z, down)
]
