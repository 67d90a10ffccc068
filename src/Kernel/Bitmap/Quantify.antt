-- ===== src/Kernel/Bitmap/Quantify.antt =====
-- bitmap_any, bitmap_none and bitmap_all: what they say of a range of bits.
use implso.Prelude.{ℕ, ◌+◌, ◌≤◌, ◌≡◌, refl, ◌↔◌, Bool, true, false, not, arith}
use implso.Prelude.Run
use implso.Prelude.Run.{Run, ok, ◌>>=◌, Returns, returns}
use implso.Kernel.Bitmap.{Bitmap, any, none_set, all}
use implso.Kernel.Bitmap.Single.{IsValid, bit}
use implso.Kernel.Bitmap.Range.{AllAre, Search, found, missing, contains_lem}

-- A search for a value fails exactly where all bits have the other value.
Search-iff :
    {view : ℕ → Bool} {value : Bool} {s n : ℕ} (r : Bool)
    → Search view value s n r
    → (r ≡ false) ↔ AllAre view (not value) s n
Search-iff true (found j lo hi h) = (λ e. cc, λ all_not. let e = all_not j lo hi in ground arith)
Search-iff false (missing all_not) = (λ _. all_not, λ _. refl)

flip_iff {ℓ} : {P : Type ℓ} (r : Bool) → (r ≡ false) ↔ P → (not r ≡ true) ↔ P
flip_iff true iff = (λ e. cc, λ p. let e = iff.1 p in cc)
flip_iff false iff = (λ _. iff.0 refl, λ _. refl)

module _ (b : Bitmap) (start cnt : ℕ) (v : IsValid b) (h : start + cnt ≤ b.bit_cnt) where
  pub any_lem : Returns (λ r. (r ≡ false) ↔ AllAre (bit b) false start cnt) (any b start cnt)
  unfolding any
  any_lem = Run.mono (contains_lem b start cnt v h true) λ r s. Search-iff r s

  pub none_set_lem :
      Returns (λ r. (r ≡ true) ↔ AllAre (bit b) false start cnt) (none_set b start cnt)
  unfolding none_set
  none_set_lem =
      Run.bind (contains_lem b start cnt v h true) λ r s. returns (flip_iff r (Search-iff r s))

  -- bitmap_all on a range within the bitmap does not panic, and is true exactly if all bits of the
  -- range are set.
  pub all_lem : Returns (λ r. (r ≡ true) ↔ AllAre (bit b) true start cnt) (all b start cnt)
  unfolding all
  all_lem =
      Run.bind (contains_lem b start cnt v h false) λ r s. returns (flip_iff r (Search-iff r s))
