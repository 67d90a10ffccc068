-- ===== src/Kernel/Bitmap/Scan.antt =====
-- bitmap_scan and bitmap_scan_and_flip: the first group of bits that are all alike.
use native.Mathlib.Decide.{dec_lt}
use implso.Prelude.{
  ℕ, zero, suc, ◌+◌, ◌-◌, ◌≤◌, ◌<◌, ◌≡◌, refl, ◌∙◌, Bool, true, false, not, arith, leb, ◌==◌,
  Bool-cases, inl, inr, le→leb, if◌then◌else◌, ◌⊎◌,
}
use implso.Prelude.Run
use implso.Prelude.Run.{Run, ok, panic, ◌>>=◌, ◌>>◌, Returns, returns}
use implso.Kernel.Bitmap.{Bitmap, bitmap_error, scan_loop, scan, set_multiple, scan_and_flip}
use implso.Kernel.Bitmap.Single.{IsValid, bit, Becomes}
use implso.Kernel.Bitmap.Range.{
  inside, AllAre, Search, found, missing, contains_lem, set_multiple_lem,
}

-- The first group of `cnt` bits at or after `start` and before `stop` that all have the value; or
-- BITMAP_ERROR, where there is none.
pub data FirstGroup (view : ℕ → Bool) (value : Bool) (start stop cnt : ℕ) : ℕ → Type 0 where
  group :
      (i : ℕ)
      → start ≤ i
      → i + cnt ≤ stop
      → AllAre view value i cnt
      → ((k : ℕ) → start ≤ k → k < i → ¬ AllAre view value k cnt)
      → FirstGroup view value start stop cnt i
  no_group :
      ((k : ℕ) → start ≤ k → k + cnt ≤ stop → ¬ AllAre view value k cnt)
      → FirstGroup view value start stop cnt bitmap_error

refuted :
    {view : ℕ → Bool} {value : Bool} {s n : ℕ}
    → Search view (not value) s n true
    → ¬ AllAre view value s n
refuted {value} (found j lo hi h) all_are = ground (arith, all_are j lo hi)

not-not : (value : Bool) → not (not value) ≡ value
not-not true = refl
not-not false = refl

skip_first :
    {view : ℕ → Bool} {value : Bool} {s : ℕ} (cnt k : ℕ)
    → ¬ AllAre view value s cnt
    → s ≤ k
    → (s + 1 ≤ k → ¬ AllAre view value k cnt)
    → ¬ AllAre view value k cnt
skip_first {s} cnt k miss le later = elim (dec_lt s k) [
  | yes lt ↦ later (omega arith)
  | no here ↦ let e : s ≡ k = omega arith in rw (← e) miss
]

FirstGroup-step :
    {view : ℕ → Bool} {value : Bool} {stop cnt r : ℕ} (s : ℕ)
    → ¬ AllAre view value s cnt
    → FirstGroup view value (s + 1) stop cnt r
    → FirstGroup view value s stop cnt r
FirstGroup-step s miss (group i lo fits all_are earlier) =
    group i (omega arith) fits all_are (λ k le lt. skip_first _ k miss le (λ lo. earlier k lo lt))
FirstGroup-step s miss (no_group nowhere) =
    no_group (λ k le fits. skip_first _ k miss le (λ lo. nowhere k lo fits))

-- The branch of the loop on what bitmap_contains says.
scan_branch :
    {view : ℕ → Bool} {value : Bool} {stop cnt : ℕ} (i : ℕ) (r : Bool) (rest : Run ℕ)
    → i + cnt ≤ stop
    → Search view (not value) i cnt r
    → Returns (FirstGroup view value (i + 1) stop cnt) rest
    → Returns (FirstGroup view value i stop cnt) (if not r then ok i else rest)
scan_branch {value} i true rest fits s later =
    Run.mono later (λ r g. FirstGroup-step i (refuted s) g)
scan_branch {value} i false rest fits (missing all_not) later = returns (
    group i (omega arith) fits (λ j lo hi. all_not j lo hi ∙ not-not value)
      (λ k le lt. absurd (omega arith)))

module _ (b : Bitmap) (v : IsValid b) (cnt : ℕ) (value : Bool) where
  scan_loop-FirstGroup :
      (n i : ℕ)
      → b.bit_cnt < i + n + cnt
      → (n ≡ 0) ⊎ (i + n + cnt ≤ b.bit_cnt + 1)
      → Returns (FirstGroup (bit b) value i b.bit_cnt cnt) (scan_loop n i cnt value b)
  unfolding scan_loop
  scan_loop-FirstGroup zero i past rounds = returns (no_group (λ k le fits. absurd (omega arith)))
  scan_loop-FirstGroup (suc n) i past rounds =
      let fits : i + cnt ≤ b.bit_cnt = omega arith in
      Run.bind (contains_lem b i cnt v fits (not value))
        λ r s. scan_branch i r _ fits s (scan_loop-FirstGroup n (i + 1) (omega arith) (omega arith))

  -- bitmap_scan from a start within the bitmap does not panic, and returns the start of the first
  -- group of bits with the value, or BITMAP_ERROR if there is none.
  pub scan_lem :
      (start : ℕ)
      → start ≤ b.bit_cnt
      → Returns (FirstGroup (bit b) value start b.bit_cnt cnt) (scan b start cnt value)
  unfolding scan
  scan_lem start h = elim (Bool-cases (leb cnt b.bit_cnt)) [
    | inl fits ↦
        let room : cnt ≤ b.bit_cnt = ground arith in
        rw (le→leb _ _ h, fits)
          (scan_loop-FirstGroup (b.bit_cnt - cnt + 1 - start) start (omega arith) (omega arith))
    | inr wide ↦
        let no_room : b.bit_cnt < cnt = ground arith in
        rw (le→leb _ _ h, wide) (returns (no_group (λ k le fits. absurd (omega arith))))
  ]

-- What bitmap_scan_and_flip returns: no group and the same bitmap, or the first group, flipped.
pub data Flipped (b : Bitmap) (value : Bool) (start cnt : ℕ) : ℕ × Bitmap → Type 0 where
  unchanged :
      ((k : ℕ) → start ≤ k → k + cnt ≤ b.bit_cnt → ¬ AllAre (bit b) value k cnt)
      → Flipped b value start cnt (bitmap_error, b)
  flipped :
      (i : ℕ) (b' : Bitmap)
      → start ≤ i
      → i + cnt ≤ b.bit_cnt
      → AllAre (bit b) value i cnt
      → ((k : ℕ) → start ≤ k → k < i → ¬ AllAre (bit b) value k cnt)
      → Becomes b (λ j. if inside i cnt j then not value else bit b j) b'
      → Flipped b value start cnt (i, b')

module _ (b : Bitmap) (v : IsValid b) (start cnt : ℕ) (value : Bool) where
  flip_group :
      (idx : ℕ)
      → FirstGroup (bit b) value start b.bit_cnt cnt idx
      → Returns (Flipped b value start cnt) (
          if idx == bitmap_error
          then ok (idx, b)
          else (do b' ← set_multiple b idx cnt (not value); ok (idx, b')))
  flip_group idx (no_group nowhere) = returns (unchanged nowhere)
  flip_group idx (group i lo fits all_are earlier) =
      let small : (i == bitmap_error) ≡ false = ground (arith, v.fits) in
      rw small (
        Run.bind (set_multiple_lem b i cnt v fits (not value))
          λ b' becomes. returns (flipped i b' lo fits all_are earlier becomes))

  -- bitmap_scan_and_flip from a start within the bitmap returns BITMAP_ERROR and the same bitmap if
  -- no group of equal bits is there, or else the start of the first such group, with exactly its
  -- bits flipped.
  pub scan_and_flip_lem :
      start ≤ b.bit_cnt → Returns (Flipped b value start cnt) (scan_and_flip b start cnt value)
  unfolding scan_and_flip
  scan_and_flip_lem h = Run.bind (scan_lem b v cnt value start h) flip_group
