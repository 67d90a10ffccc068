-- ===== src/Kernel/Bitmap/Single.antt =====
-- One bit of a bitmap: what bitmap_set, bitmap_flip and bitmap_test do to it and to the others.
use Prim.Native.Nat.{bit_and, bit_or, bit_xor}
use implso.Prelude.{
  ℕ, ◌+◌, ◌-◌, ◌/◌, ◌%◌, ◌^◌, ◌≤◌, ◌<◌, ◌≡◌, refl, ◌∙◌, Bool, true, false, not, arith, ltb, ◌==◌,
  same, Bool-cases, inl, inr, lt→ltb, ◌≢◌, if◌then◌else◌, length, get_or, length-set,
  get_or-set_self, get_or-set_ne,
}
use implso.Prelude.Run.{ok, panic, Returns, returns}
use implso.Bits.{
  test_bit, test_bit-or, test_bit-and, test_bit-xor, test_bit-mask, test_bit-ones, lt_of_bits,
  bits_of_lt, and_mask_test,
}
use implso.Kernel.Bitmap.{Bitmap, bit_mask, elem_cnt, update_elem, mark, reset, flip, set, test}

-- The array holds a word for each 32 bits, and the size does not make DIV_ROUND_UP wrap round.
pub record IsValid (b : Bitmap) : Type 0 where
  pub fits : b.bit_cnt + 31 < 2 ^ 32
  pub allocated : length b.bits ≡ elem_cnt b.bit_cnt
  pub words : (i : ℕ) → get_or b.bits i 0 < 2 ^ 32

-- The abstract view: a bitmap is a set of positions.
unfoldable pub bit : Bitmap → ℕ → Bool
unfolding test_bit
bit b i = test_bit (get_or b.bits (i / 32) 0) (i % 32)

pub test_lem : (b : Bitmap) (i : ℕ) → i < b.bit_cnt → test b i ≡ ok (bit b i)
unfolding test bit
test_lem b i h = rw (lt→ltb _ _ h, and_mask_test (get_or b.bits (i / 32) 0) (i % 32))

elem_bound : (b : Bitmap) (i : ℕ) → IsValid b → i < b.bit_cnt → i / 32 < length b.bits
elem_bound b i v h = omega (arith, v.fits, v.allocated)

-- `b'` is a valid bitmap of the size of `b`, and its bits are those of `view`.
pub record Becomes (b : Bitmap) (view : ℕ → Bool) (b' : Bitmap) : Type 0 where
  pub valid : IsValid b'
  pub sized : b'.bit_cnt ≡ b.bit_cnt
  pub bits : (j : ℕ) → bit b' j ≡ view j

-- An update of one word by an operation that acts on one bit acts on one bit of the bitmap.
module _ (f : ℕ → ℕ) (b : Bitmap) (i : ℕ) (v : IsValid b) (h : i < b.bit_cnt) (op : Bool → Bool)
    (acts : (w k : ℕ)
      → k < 32
      → test_bit (f w) k ≡ (if i % 32 == k then op (test_bit w k) else test_bit w k)) where
  bit-update_elem : (j : ℕ) → bit (update_elem f b i) j ≡ (if i == j then op (bit b j) else bit b j)
  unfolding bit update_elem
  bit-update_elem j = elim (Bool-cases (i / 32 == j / 32)) [
    | inl e ↦
        let w = get_or b.bits (i / 32) 0 in
        ground (
          arith,
          get_or-set_self b.bits (i / 32) (f w) 0 (elem_bound b i v h),
          acts w (j % 32) (omega arith),
        )
    | inr e ↦
        let w = get_or b.bits (i / 32) 0 in
        let ne : i / 32 ≢ j / 32 = ground arith in
        ground (arith, get_or-set_ne b.bits (i / 32) (j / 32) (f w) 0 ne)
  ]

  update_elem-IsValid : ((w : ℕ) → w < 2 ^ 32 → f w < 2 ^ 32) → IsValid (update_elem f b i)
  unfolding update_elem
  update_elem-IsValid small = record {
    fits = v.fits;
    allocated = length-set b.bits (i / 32) _ ∙ v.allocated;
    words = λ j. elim (Bool-cases (i / 32 == j)) [
      | inl e ↦
          let k : i / 32 ≡ j = ground arith in
          rw (← k, get_or-set_self b.bits (i / 32) _ 0 (elem_bound b i v h))
            (small _ (v.words (i / 32)))
      | inr e ↦
          let k : i / 32 ≢ j = ground arith in
          rw (get_or-set_ne b.bits (i / 32) j _ 0 k) (v.words j)
    ];
  }

  update_elem-Becomes :
      ((w : ℕ) → w < 2 ^ 32 → f w < 2 ^ 32)
      → Becomes b (λ j. if i == j then op (bit b j) else bit b j) (update_elem f b i)
  unfolding update_elem
  update_elem-Becomes small = record {
    valid = update_elem-IsValid small;
    sized = refl;
    bits = bit-update_elem;
  }

-- The three operations on a word with a mask of one bit.
module _ (i w : ℕ) where
  high : w < 2 ^ 32 → (k : ℕ) → 32 ≤ k → test_bit w k ≡ false
  high small k le = bits_of_lt 32 w k small le

  mask_high : (k : ℕ) → 32 ≤ k → test_bit (bit_mask i) k ≡ false
  mask_high k h = test_bit-mask (i % 32) k ∙ ground arith

  or_acts :
      (k : ℕ) → test_bit (bit_or w (bit_mask i)) k ≡ (if i % 32 == k then true else test_bit w k)
  or_acts k = test_bit-or w (bit_mask i) k ∙ rw test_bit-mask (ground arith)

  or_small : w < 2 ^ 32 → bit_or w (bit_mask i) < 2 ^ 32
  or_small small =
      lt_of_bits 32 _ (λ k le. test_bit-or w (bit_mask i) k ∙ rw (high small k le, mask_high k le))

  xor_acts :
      (k : ℕ)
      → test_bit (bit_xor w (bit_mask i)) k
        ≡ (if i % 32 == k then not (test_bit w k) else test_bit w k)
  xor_acts k = test_bit-xor w (bit_mask i) k ∙ rw test_bit-mask (ground arith)

  xor_small : w < 2 ^ 32 → bit_xor w (bit_mask i) < 2 ^ 32
  xor_small small =
      lt_of_bits 32 _ (λ k le. test_bit-xor w (bit_mask i) k ∙ rw (high small k le, mask_high k le))

  abbrev not_mask : ℕ
  not_mask = bit_xor (2 ^ 32 - 1) (bit_mask i)

  not_mask_bit : (k : ℕ) → test_bit not_mask k ≡ not (same (ltb k 32) (i % 32 == k))
  not_mask_bit k =
      test_bit-xor (2 ^ 32 - 1) (bit_mask i) k ∙ rw (test_bit-ones 32 k, test_bit-mask (i % 32) k)

  and_acts :
      (k : ℕ)
      → k < 32
      → test_bit (bit_and w not_mask) k ≡ (if i % 32 == k then false else test_bit w k)
  and_acts k h = test_bit-and w not_mask k ∙ rw not_mask_bit (ground arith)

  and_small : w < 2 ^ 32 → bit_and w not_mask < 2 ^ 32
  and_small small = lt_of_bits 32 _ (λ k le. test_bit-and w not_mask k ∙ rw (high small k le))

module _ (b : Bitmap) (i : ℕ) (v : IsValid b) (h : i < b.bit_cnt) where
  pub mark_lem : Becomes b (λ j. if i == j then true else bit b j) (mark b i)
  unfolding mark
  mark_lem =
      update_elem-Becomes (λ w. bit_or w (bit_mask i)) b i v h (λ _. true) (λ w k _. or_acts i w k)
        (or_small i)

  pub reset_lem : Becomes b (λ j. if i == j then false else bit b j) (reset b i)
  unfolding reset
  reset_lem =
      update_elem-Becomes (λ w. bit_and w (not_mask i w)) b i v h (λ _. false)
        (λ w k lt. and_acts i w k lt) (and_small i)

  -- bitmap_flip of a bit within the bitmap gives the bit the opposite value, and leaves the others.
  pub flip_lem : Becomes b (λ j. if i == j then not (bit b j) else bit b j) (flip b i)
  unfolding flip
  flip_lem =
      update_elem-Becomes (λ w. bit_xor w (bit_mask i)) b i v h not (λ w k _. xor_acts i w k)
        (xor_small i)

  -- bitmap_set of a bit within the bitmap does not panic, gives the bit the value, and leaves the
  -- others.
  pub set_lem :
      (value : Bool) → Returns (Becomes b (λ j. if i == j then value else bit b j)) (set b i value)
  unfolding set
  set_lem true = rw (lt→ltb _ _ h) (returns mark_lem)
  set_lem false = rw (lt→ltb _ _ h) (returns reset_lem)

pub set_panics : (b : Bitmap) (i : ℕ) (value : Bool) → b.bit_cnt ≤ i → set b i value ≡ panic
unfolding set
set_panics b i value h = ground arith
