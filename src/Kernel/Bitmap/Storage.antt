-- ===== src/Kernel/Bitmap/Storage.antt =====
-- Making, reading and writing bitmaps: bitmap_create, bitmap_create_in_buf, bitmap_read and
-- bitmap_write. The memory that malloc returns and the file are arguments.
use Prim.Native.Nat.{bit_and}
use implso.Prelude.{
  ℕ, ◌+◌, ◌-◌, ◌^◌, ◌<◌, ◌≡◌, ◌∙◌, Bool, true, false, arith, ltb, leb, ◌==◌, if◌then◌else◌, Option,
  none, some, List, [], length, get_or, set as set_elem,
}
use implso.Prelude.Run
use implso.Prelude.Run.{Run, ok, panic, ◌>>=◌, ◌>>◌, assert, Returns, returns}
use implso.Kernel.Bitmap.{Bitmap, elem_cnt, byte_cnt, last_mask, set_all, size}
use implso.Kernel.Bitmap.Single.{IsValid, bit}
use implso.Kernel.Bitmap.Range.{set_multiple_lem}

-- `sizeof (struct bitmap)`: a size and a pointer.
unfoldable pub buf_size : ℕ → ℕ
buf_size bit_cnt = 8 + byte_cnt bit_cnt

-- A bitmap over the given words, with all bits reset.
cleared : ℕ → List ℕ → Run (Option Bitmap)
cleared bit_cnt words = do
  b ← set_all (record { bit_cnt = bit_cnt; bits = words }) false
  ok (some b)

-- The second malloc of bitmap_create, and what follows it.
with_words : ℕ → Option (List ℕ) → Run (Option Bitmap)
with_words bit_cnt (some words) = cleared bit_cnt words
with_words bit_cnt none = if bit_cnt == 0 then cleared bit_cnt [] else ok none

-- `node` says whether the first malloc succeeds; `block` is what the second one returns, with
-- whatever words the memory holds.
unfoldable pub create : (node : Bool) (block : Option (List ℕ)) → ℕ → Run (Option Bitmap)
unfolding with_words cleared set_all
create node block bit_cnt = if node then with_words bit_cnt block else ok none

-- `words` is the memory behind the header in the block of `block_size` bytes.
unfoldable pub create_in_buf : (block_size : ℕ) (words : List ℕ) → ℕ → Run Bitmap
unfolding buf_size set_all
create_in_buf block_size words bit_cnt = do
  assert (leb (buf_size bit_cnt) block_size)
  set_all (record { bit_cnt = bit_cnt; bits = words }) false

unfoldable pub file_size : Bitmap → ℕ
file_size b = byte_cnt b.bit_cnt

-- `words` is the array after file_read_at, and `count` the bytes that it says it has read.
unfoldable pub read : (words : List ℕ) (count : ℕ) → Bitmap → Bool × Bitmap
read words count b =
    if ltb 0 b.bit_cnt
    then (
      count == byte_cnt b.bit_cnt,
      (let last = elem_cnt b.bit_cnt - 1 in
          record b { bits = set_elem words last (bit_and (get_or words last 0) (last_mask b)) }),
    )
    else (true, b)

-- `count` is what file_write_at returns.
unfoldable pub write : (count : ℕ) → Bitmap → Bool
write count b = count == byte_cnt b.bit_cnt

module _ (bit_cnt : ℕ) (words : List ℕ) (fits : bit_cnt + 31 < 2 ^ 32)
    (allocated : length words ≡ elem_cnt bit_cnt)
    (small : (i : ℕ) → get_or words i 0 < 2 ^ 32) where
  -- A new bitmap: valid, of the size asked for, and with no bit set.
  pub record IsCleared (b : Bitmap) : Type 0 where
    pub valid : IsValid b
    pub sized : b.bit_cnt ≡ bit_cnt
    pub empty : (j : ℕ) → j < bit_cnt → bit b j ≡ false

  pub set_all-IsCleared :
      Returns IsCleared (set_all (record { bit_cnt = bit_cnt; bits = words }) false)
  unfolding set_all size
  set_all-IsCleared =
      Run.mono
        (set_multiple_lem (record { bit_cnt = bit_cnt; bits = words }) 0 bit_cnt
          (record { fits = fits; allocated = allocated; words = small }) (omega arith) false)
        λ b r. record { valid = r.valid; sized = r.sized; empty = λ j h. r.bits j ∙ ground arith }
