-- ===== src/Kernel/Bitmap/Range.antt =====
-- Ranges of bits: bitmap_set_multiple, bitmap_set_all, bitmap_count and bitmap_contains.
use implso.Prelude.{
  ℕ, zero, suc, ◌+◌, ◌≤◌, ◌<◌, ◌≡◌, refl, ap, ◌∙◌, Bool, true, false, not, ◌&&◌, arith, ltb, leb,
  ◌==◌, same, Bool-cases, inl, inr, if◌then◌else◌,
}
use implso.Prelude.Run
use implso.Prelude.Run.{Run, ok, panic, ◌>>=◌, ◌>>◌, Returns, returns}
use implso.Kernel.Bitmap.{
  Bitmap, add_size, set_loop, set_multiple, count_loop, count, contains_loop, contains,
}
use implso.Kernel.Bitmap.Single.{IsValid, bit, test_lem, Becomes, set_lem}

-- `j` is one of the `n` positions from `s` on.
abbrev pub inside : (s n j : ℕ) → Bool
inside s n j = leb s j && ltb j (s + n)

pub add_size-fits :
    (b : Bitmap) (start i : ℕ) → IsValid b → start + i ≤ b.bit_cnt → add_size start i ≡ start + i
add_size-fits b start i v h = omega (arith, v.fits)

set_loop-Becomes :
    (n i start : ℕ) (value : Bool) (b : Bitmap)
    → IsValid b
    → start + i + n ≤ b.bit_cnt
    → Returns
        (Becomes b (λ j. if inside (start + i) n j then value else bit b j))
        (set_loop n i start value b)
unfolding set_loop
set_loop-Becomes zero i start value b v h =
    returns (record { valid = v; sized = refl; bits = λ j. ground arith })
set_loop-Becomes (suc n) i start value b v h = rw (add_size-fits b start i v (omega arith)) (
    Run.bind (set_lem b (start + i) v (omega arith) value) λ b1 first.
      Run.mono (set_loop-Becomes n (i + 1) start value b1 first.valid (omega (arith, first.sized)))
        λ b2 rest. record {
          valid = rest.valid;
          sized = rest.sized ∙ first.sized;
          bits = λ j. rest.bits j ∙ ground (arith, first.bits j);
        })

module _ (b : Bitmap) (start cnt : ℕ) (v : IsValid b) (h : start + cnt ≤ b.bit_cnt) where
  in_range : (leb start b.bit_cnt ≡ true) × (leb (add_size start cnt) b.bit_cnt ≡ true)
  in_range = ground (arith, v.fits)

  -- bitmap_set_multiple of a range within the bitmap does not panic, gives the bits of the range
  -- the value, and leaves the others.
  pub set_multiple_lem :
      (value : Bool)
      → Returns
          (Becomes b (λ j. if inside start cnt j then value else bit b j))
          (set_multiple b start cnt value)
  unfolding set_multiple
  set_multiple_lem value =
      rw (in_range.0, in_range.1)
        (Run.mono (set_loop-Becomes cnt 0 start value b v (omega arith))
          λ b' r. record { valid = r.valid; sized = r.sized; bits = λ j. r.bits j ∙ ground arith })

-- How many of the `n` positions from `s` on have the value.
unfoldable pub tally : (view : ℕ → Bool) (value : Bool) (s n : ℕ) → ℕ
tally view value s zero = 0
tally view value s (suc n) = (if same (view s) value then 1 else 0) + tally view value (s + 1) n

count_loop-tally :
    (n i start : ℕ) (value : Bool) (b : Bitmap) (acc : ℕ)
    → IsValid b
    → start + i + n ≤ b.bit_cnt
    → count_loop n i start value b acc ≡ ok (acc + tally (bit b) value (start + i) n)
unfolding count_loop tally
count_loop-tally zero i start value b acc v h = ap ok (omega arith)
count_loop-tally (suc n) i start value b acc v h =
    rw (add_size-fits b start i v (omega arith), test_lem b (start + i) (omega arith))
      (count_loop-tally n (i + 1) start value b _ v (omega arith) ∙ ap ok (ground arith))

-- Every one of the `n` positions from `s` on has the value.
abbrev pub AllAre : (view : ℕ → Bool) (value : Bool) (s n : ℕ) → Type 0
AllAre view value s n = (j : ℕ) → s ≤ j → j < s + n → view j ≡ value

-- What a search for a value says: found, at a position, or the opposite value everywhere.
pub data Search (view : ℕ → Bool) (value : Bool) (s n : ℕ) : Bool → Type 0 where
  found : (j : ℕ) → s ≤ j → j < s + n → view j ≡ value → Search view value s n true
  missing : AllAre view (not value) s n → Search view value s n false

Search-step :
    {view : ℕ → Bool} {value : Bool} {s s' n : ℕ} {r : Bool}
    → s' ≡ s + 1
    → same (view s) value ≡ false
    → Search view value s' n r
    → Search view value s (suc n) r
Search-step e miss (found j lo hi h) = found j (omega arith) (omega arith) h
Search-step {view} {value} {s} e miss (missing all_not) = missing (λ j lo hi.
    elim (Bool-cases (s == j)) [
      | inl here ↦ let k : s ≡ j = ground arith in rw (← k) (ground arith)
      | inr later ↦ all_not j (ground arith) (omega arith)
    ])

contains_loop-Search :
    (n i start : ℕ) (value : Bool) (b : Bitmap)
    → IsValid b
    → start + i + n ≤ b.bit_cnt
    → Returns (Search (bit b) value (start + i) n) (contains_loop n i start value b)
unfolding contains_loop
contains_loop-Search zero i start value b v h = returns (missing (λ j lo hi. absurd (omega arith)))
contains_loop-Search (suc n) i start value b v h =
    rw (add_size-fits b start i v (omega arith), test_lem b (start + i) (omega arith))
      (elim (Bool-cases (same (bit b (start + i)) value)) [
        | inl hit ↦ rw hit (returns (found (start + i) (omega arith) (omega arith) (ground arith)))
        | inr miss ↦ rw miss (
            Run.mono (contains_loop-Search n (i + 1) start value b v (omega arith))
              λ r s. Search-step (omega arith) miss s)
      ])

module _ (b : Bitmap) (start cnt : ℕ) (v : IsValid b) (h : start + cnt ≤ b.bit_cnt) where
  -- bitmap_contains on a range within the bitmap does not panic, and says whether a bit of the
  -- range has the value.
  pub contains_lem :
      (value : Bool) → Returns (Search (bit b) value start cnt) (contains b start cnt value)
  unfolding contains
  contains_lem value =
      let r = in_range b start cnt v h in
      let z : start + 0 ≡ start = omega arith in
      rw (r.0, r.1) (rw z at (contains_loop-Search cnt 0 start value b v (omega arith)))

  pub count-tally : (value : Bool) → count b start cnt value ≡ ok (tally (bit b) value start cnt)
  unfolding count
  count-tally value =
      let r = in_range b start cnt v h in
      let z : start + 0 ≡ start = omega arith in
      rw (r.0, r.1)
        (count_loop-tally cnt 0 start value b 0 v (omega arith) ∙ rw z (ap ok (omega arith)))

pub tally-complement : (view : ℕ → Bool) (s n : ℕ) → tally view true s n + tally view false s n ≡ n
unfolding tally
tally-complement view s zero = refl
tally-complement view s (suc n) = ground (arith, tally-complement view (s + 1) n)

pub tally-AllAre :
    (view : ℕ → Bool) (value : Bool) (s n : ℕ) → AllAre view value s n → tally view value s n ≡ n
unfolding tally
tally-AllAre view value s zero h = refl
tally-AllAre view value s (suc n) h =
    let rest = tally-AllAre view value (s + 1) n (λ j lo hi. h j (omega arith) (omega arith)) in
    rw (h s (omega arith) (omega arith), rest) (ground arith)

-- On a range within the bitmap, the counts of the set and of the reset bits that bitmap_count gives
-- add up to the size of the range.
pub count_complement :
    (b : Bitmap) (start cnt : ℕ)
    → IsValid b
    → start + cnt ≤ b.bit_cnt
    → (n : ℕ) × (m : ℕ) × (count b start cnt true ≡ ok n)
      × (count b start cnt false ≡ ok m)
      × (n + m ≡ cnt)
count_complement b start cnt v h = (
  tally (bit b) true start cnt,
  tally (bit b) false start cnt,
  count-tally b start cnt v h true,
  count-tally b start cnt v h false,
  tally-complement (bit b) start cnt,
)
