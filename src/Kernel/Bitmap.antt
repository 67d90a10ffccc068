-- ===== src/Kernel/Bitmap.antt =====
-- lib/kernel/bitmap.c: an array of bits in 32-bit words. A bitmap is a value here, so a function
-- that updates one returns the new value, and the checks `b != NULL` have no counterpart.
pub mod Quantify
pub mod Range
pub mod Scan
pub mod Single
pub mod Storage
use Prim.Native.Nat.{bit_and, bit_or, bit_xor}
use implso.Prelude.{
  ℕ, zero, suc, ◌+◌, ◌-◌, ◌*◌, ◌/◌, ◌%◌, ◌^◌, Bool, true, false, not, List, ltb, leb, ◌==◌, same,
  if◌then◌else◌, get_or, set as set_elem,
}
use implso.Prelude.Run.{Run, ok, ◌>>=◌, ◌>>◌, assert}

-- `sizeof (elem_type) * CHAR_BIT`, and the sum of two `size_t`
abbrev pub elem_bits : ℕ
elem_bits = 32

abbrev pub add_size : ℕ → ℕ → ℕ
add_size a b = (a + b) % 2 ^ 32

-- BITMAP_ERROR, which is SIZE_MAX
abbrev pub bitmap_error : ℕ
bitmap_error = 2 ^ 32 - 1

pub record Bitmap : Type 0 where
  pub bit_cnt : ℕ
  pub bits : List ℕ

abbrev pub elem_idx : ℕ → ℕ
elem_idx bit_idx = bit_idx / elem_bits

abbrev pub bit_mask : ℕ → ℕ
bit_mask bit_idx = 2 ^ (bit_idx % elem_bits)

-- DIV_ROUND_UP, whose sum may wrap round
abbrev pub elem_cnt : ℕ → ℕ
elem_cnt bit_cnt = add_size bit_cnt (elem_bits - 1) / elem_bits

abbrev pub byte_cnt : ℕ → ℕ
byte_cnt bit_cnt = 4 * elem_cnt bit_cnt

abbrev pub last_mask : Bitmap → ℕ
last_mask b =
    let last_bits = b.bit_cnt % elem_bits in
    if last_bits == 0 then 2 ^ 32 - 1 else 2 ^ last_bits - 1

unfoldable pub size : Bitmap → ℕ
size b = b.bit_cnt

-- The three updates of one word, `|=`, `&= ~` and `^=`.
update_elem : (ℕ → ℕ) → Bitmap → ℕ → Bitmap
update_elem f b bit_idx =
    let idx = elem_idx bit_idx in record b { bits = set_elem b.bits idx (f (get_or b.bits idx 0)) }

unfoldable pub mark : Bitmap → ℕ → Bitmap
unfolding update_elem
mark b bit_idx = update_elem (λ w. bit_or w (bit_mask bit_idx)) b bit_idx

unfoldable pub reset : Bitmap → ℕ → Bitmap
unfolding update_elem
reset b bit_idx = update_elem (λ w. bit_and w (bit_xor (2 ^ 32 - 1) (bit_mask bit_idx))) b bit_idx

unfoldable pub flip : Bitmap → ℕ → Bitmap
unfolding update_elem
flip b bit_idx = update_elem (λ w. bit_xor w (bit_mask bit_idx)) b bit_idx

unfoldable pub set : Bitmap → ℕ → Bool → Run Bitmap
unfolding mark reset
set b idx value = do assert (ltb idx b.bit_cnt); if value then ok (mark b idx) else ok (reset b idx)

unfoldable pub test : Bitmap → ℕ → Run Bool
test b idx = do
  assert (ltb idx b.bit_cnt)
  ok (not (bit_and (get_or b.bits (elem_idx idx) 0) (bit_mask idx) == 0))

-- `for (i = 0; i < cnt; i++) bitmap_set (b, start + i, value);`, by the rounds that are left
set_loop : (rounds i start : ℕ) → Bool → Bitmap → Run Bitmap
set_loop zero i start value b = ok b
set_loop (suc n) i start value b = do
  b' ← set b (add_size start i) value
  set_loop n (i + 1) start value b'

-- The two ASSERTs on a range of bits.
abbrev pub assert_range : Bitmap → ℕ → ℕ → Run (Unit {0})
assert_range b start cnt =
    assert (leb start b.bit_cnt) >> assert (leb (add_size start cnt) b.bit_cnt)

unfoldable pub set_multiple : Bitmap → ℕ → ℕ → Bool → Run Bitmap
unfolding set_loop set
set_multiple b start cnt value = do assert_range b start cnt; set_loop cnt 0 start value b

unfoldable pub set_all : Bitmap → Bool → Run Bitmap
unfolding set_multiple size
set_all b value = set_multiple b 0 (size b) value

count_loop : (rounds i start : ℕ) → Bool → Bitmap → (value_cnt : ℕ) → Run ℕ
count_loop zero i start value b value_cnt = ok value_cnt
count_loop (suc n) i start value b value_cnt = do
  bit ← test b (add_size start i)
  count_loop n (i + 1) start value b (if same bit value then value_cnt + 1 else value_cnt)

unfoldable pub count : Bitmap → ℕ → ℕ → Bool → Run ℕ
unfolding count_loop test
count b start cnt value = do assert_range b start cnt; count_loop cnt 0 start value b 0

contains_loop : (rounds i start : ℕ) → Bool → Bitmap → Run Bool
contains_loop zero i start value b = ok false
contains_loop (suc n) i start value b = do
  bit ← test b (add_size start i)
  if same bit value then ok true else contains_loop n (i + 1) start value b

unfoldable pub contains : Bitmap → ℕ → ℕ → Bool → Run Bool
unfolding contains_loop test
contains b start cnt value = do assert_range b start cnt; contains_loop cnt 0 start value b

unfoldable pub any : Bitmap → ℕ → ℕ → Run Bool
unfolding contains
any b start cnt = contains b start cnt true

-- bitmap_none; `none` is a constructor of `Option`
unfoldable pub none_set : Bitmap → ℕ → ℕ → Run Bool
unfolding contains
none_set b start cnt = do found ← contains b start cnt true; ok (not found)

unfoldable pub all : Bitmap → ℕ → ℕ → Run Bool
unfolding contains
all b start cnt = do found ← contains b start cnt false; ok (not found)

-- `for (i = start; i <= last; i++)`, which has `last + 1 - start` rounds.
scan_loop : (rounds i cnt : ℕ) → Bool → Bitmap → Run ℕ
scan_loop zero i cnt value b = ok bitmap_error
scan_loop (suc n) i cnt value b = do
  found ← contains b i cnt (not value)
  if not found then ok i else scan_loop n (i + 1) cnt value b

unfoldable pub scan : Bitmap → ℕ → ℕ → Bool → Run ℕ
unfolding scan_loop contains
scan b start cnt value = do
  assert (leb start b.bit_cnt)
  if leb cnt b.bit_cnt
      then (let last = b.bit_cnt - cnt in scan_loop (last + 1 - start) start cnt value b)
      else ok bitmap_error

unfoldable pub scan_and_flip : Bitmap → ℕ → ℕ → Bool → Run (ℕ × Bitmap)
unfolding scan set_multiple
scan_and_flip b start cnt value = do
  idx ← scan b start cnt value
  if idx == bitmap_error
      then ok (idx, b)
      else (do b' ← set_multiple b idx cnt (not value); ok (idx, b'))
