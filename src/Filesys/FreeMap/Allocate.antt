-- ===== src/Filesys/FreeMap/Allocate.antt =====
-- free_map_allocate and free_map_release: what a caller may rely on.
use implso.Prelude.{
  ℕ, ◌+◌, ◌≤◌, ◌<◌, ◌≡◌, refl, sym, ap, ◌≢◌, ◌*◌, ◌∙◌, length, true, false, Option, none, some,
  List, ◌++◌, arith, ◌==◌, Bool-cases, inl, inr, if◌then◌else◌,
}
use implso.Prelude.Run
use implso.Prelude.Run.{Run, ok, panic, ◌>>=◌, ◌>>◌, assert, Returns, returns}
use implso.Kernel.Bitmap.{Bitmap, bitmap_error, byte_cnt, set_multiple}
use implso.Kernel.Bitmap.Single.{IsValid, bit, Becomes}
use implso.Kernel.Bitmap.Range.{inside, AllAre, set_multiple_lem}
use implso.Kernel.Bitmap.Quantify.{all_lem}
use implso.Kernel.Bitmap.Scan.{Flipped, unchanged, flipped, scan_and_flip_lem}
use implso.Kernel.Bitmap.Storage
use implso.Filesys.FreeMap.{MapFile, FreeMap, write_fails, allocate, release}

-- The map is valid, and the file, if it is open, begins with its words.
pub record IsSaved (fm : FreeMap) : Type 0 where
  pub valid : IsValid fm.map
  pub saved :
      (contents : List ℕ)
      → fm.file ≡ some contents
      → (rest : List ℕ) × (contents ≡ fm.map.bits ++ rest)

-- The free map's file is open.
abbrev pub IsOpen : FreeMap → Type 0
IsOpen fm = (contents : List ℕ) × (fm.file ≡ some contents)

-- The sectors that are taken are the same.
pub record SameSectors (fm fm' : FreeMap) : Type 0 where
  pub valid : IsValid fm'.map
  pub sized : fm'.map.bit_cnt ≡ fm.map.bit_cnt
  pub sectors : (j : ℕ) → bit fm'.map j ≡ bit fm.map j
  pub opened : IsOpen fm → IsOpen fm'

-- Why no group of `cnt` sectors is given: there is none that is free; or the map in which a free group
-- is marked could not be written to the open file, which did not take all bytes.
pub data Refusal (disk : MapFile) (fm : FreeMap) (cnt : ℕ) : Type 0 where
  full :
      ((k : ℕ) → k + cnt ≤ fm.map.bit_cnt → ¬ AllAre (bit fm.map) false k cnt) → Refusal disk fm cnt
  unwritten :
      (i : ℕ) (b : Bitmap) (contents : List ℕ)
      → Becomes fm.map (λ j. if inside i cnt j then true else bit fm.map j) b
      → fm.file ≡ some contents
      → (disk.write_at contents b.bits).0 ≢ 4 * length b.bits
      → Refusal disk fm cnt

pub data Allocated (disk : MapFile) (fm : FreeMap) (cnt : ℕ) : Option ℕ × FreeMap → Type 0 where
  refused :
      (fm' : FreeMap) → Refusal disk fm cnt → SameSectors fm fm' → Allocated disk fm cnt (none, fm')
  given :
      (i : ℕ) (fm' : FreeMap)
      → i + cnt ≤ fm.map.bit_cnt
      → AllAre (bit fm.map) false i cnt
      → ((k : ℕ) → k < i → ¬ AllAre (bit fm.map) false k cnt)
      → Becomes fm.map (λ j. if inside i cnt j then true else bit fm.map j) fm'.map
      → IsSaved fm'
      → (IsOpen fm → IsOpen fm')
      → Allocated disk fm cnt (some i, fm')

-- A group that was free, was marked and is reset again.
undone :
    {fm fm' : FreeMap} {b : Bitmap} (i cnt : ℕ)
    → AllAre (bit fm.map) false i cnt
    → Becomes fm.map (λ j. if inside i cnt j then true else bit fm.map j) b
    → Becomes b (λ j. if inside i cnt j then false else bit b j) fm'.map
    → (IsOpen fm → IsOpen fm')
    → SameSectors fm fm'
undone i cnt all_free there back opened = record {
  opened = opened;
  valid = back.valid;
  sized = back.sized ∙ there.sized;
  sectors = λ j. ground (arith, back.bits j, there.bits j, all_free j);
}

module _ (disk : MapFile) where
  all_bytes : (b : Bitmap) → IsValid b → byte_cnt b.bit_cnt ≡ 4 * length b.bits
  all_bytes b v = ap (λ n. 4 * n) (sym v.allocated)

  write_succeeds :
      (b : Bitmap) (file : Option (List ℕ))
      → IsValid b
      → (write_fails disk b file).0 ≡ false
      → (contents : List ℕ) → (write_fails disk b file).1 ≡ some contents
      → (rest : List ℕ) × (contents ≡ b.bits ++ rest)
  unfolding write_fails Storage.write
  write_succeeds b none v e contents q = absurd (ground (arith, q))
  write_succeeds b (some old) v e contents q =
      let (rest, whole) = disk.written old b.bits (ground (arith, all_bytes b v)) in
      (rest, cc whole)

  write_refused :
      (b : Bitmap) (file : Option (List ℕ))
      → IsValid b
      → (write_fails disk b file).0 ≡ true
      → (contents : List ℕ) × (file ≡ some contents)
        × ((disk.write_at contents b.bits).0 ≢ 4 * length b.bits)
  unfolding write_fails Storage.write
  write_refused b none v e = absurd (ground (arith, e))
  write_refused b (some old) v e = (old, refl, λ q. ground (arith, e, q, all_bytes b v))

  keeps_open :
      {file : Option (List ℕ)} (b : Bitmap)
      → ((c : List ℕ) × (file ≡ some c))
      → (c : List ℕ) × ((write_fails disk b file).1 ≡ some c)
  unfolding write_fails
  keeps_open b (c, e) = rw e (_, refl)

  -- The part of free_map_allocate behind the search.
  allocate_flipped :
      (fm : FreeMap) (cnt i : ℕ) (b : Bitmap)
      → IsValid fm.map
      → i + cnt ≤ fm.map.bit_cnt
      → AllAre (bit fm.map) false i cnt
      → ((k : ℕ) → k < i → ¬ AllAre (bit fm.map) false k cnt)
      → Becomes fm.map (λ j. if inside i cnt j then true else bit fm.map j) b
      → Returns (Allocated disk fm cnt) (
          let (failed, file') = write_fails disk b fm.file in
          if failed
          then (do b' ← set_multiple b i cnt false; ok (none, record { map = b'; file = file' }))
          else ok (some i, record { map = b; file = file' }))
  allocate_flipped fm cnt i b v fits all_free earlier becomes =
      elim (Bool-cases (write_fails disk b fm.file).0) [
        | inl failed ↦ rw failed (
            Run.bind (set_multiple_lem b i cnt becomes.valid (omega (arith, becomes.sized)) false)
              λ b' back.
                let (contents, e, short) = write_refused b fm.file becomes.valid failed in
                returns (
                  refused _ (unwritten i b contents becomes e short)
                    (undone i cnt all_free becomes back (keeps_open b))))
        | inr written ↦ rw written (
            returns (
              given i _ fits all_free earlier becomes
                (record {
                  valid = becomes.valid;
                  saved = write_succeeds b fm.file becomes.valid written;
                })
                (keeps_open b)))
      ]

  after_scan :
      (fm : FreeMap) (cnt : ℕ) (r : ℕ × Bitmap)
      → IsValid fm.map
      → Flipped fm.map false 0 cnt r
      → Returns (Allocated disk fm cnt) (
          if r.0 == bitmap_error
          then ok (none, fm)
          else (let (failed, file') = write_fails disk r.1 fm.file in
              if failed
              then (do
                b' ← set_multiple r.1 r.0 cnt false
                ok (none, record { map = b'; file = file' }))
              else ok (some r.0, record { map = r.1; file = file' })))
  after_scan fm cnt r v (unchanged nowhere) = returns (
      refused fm (full (λ k h. nowhere k (omega arith) h))
        (record { valid = v; sized = refl; sectors = λ j. refl; opened = λ o. o }))
  after_scan fm cnt r v (flipped i b lo fits all_free earlier becomes) =
      let small : (i == bitmap_error) ≡ false = ground (arith, v.fits) in
      rw small
        (allocate_flipped fm cnt i b v fits all_free (λ k lt. earlier k (omega arith) lt) becomes)

  -- free_map_allocate on a valid map does not panic. It returns none and leaves the same sectors
  -- taken, and then no group of the size asked for is free, or the open file did not take all bytes
  -- of the map in which a free group of the size is marked; or it returns the first group of free
  -- sectors of that size, which is then taken, while no other sector changes and the file of the
  -- map, if it is open, begins with the new map.
  pub allocate_lem :
      (fm : FreeMap) (cnt : ℕ)
      → IsValid fm.map
      → Returns (Allocated disk fm cnt) (allocate disk cnt fm)
  unfolding allocate
  allocate_lem fm cnt v =
      Run.bind (scan_and_flip_lem fm.map v 0 cnt false (omega arith)) λ r f. after_scan fm cnt r v f

  -- free_map_release of a group of sectors that are in use, with the file of the map open, does not
  -- panic: exactly these sectors become free, and the file stays open.
  pub release_lem :
      (fm : FreeMap) (i cnt : ℕ) (contents : List ℕ)
      → IsValid fm.map
      → i + cnt ≤ fm.map.bit_cnt
      → AllAre (bit fm.map) true i cnt
      → fm.file ≡ some contents
      → Returns
          (λ fm'.
            Becomes fm.map (λ j. if inside i cnt j then false else bit fm.map j) fm'.map
            × IsOpen fm')
          (release disk i cnt fm)
  unfolding release
  release_lem fm i cnt contents v fits used opened = Run.bind (all_lem fm.map i cnt v fits) λ r iff.
      rw (iff.1 used, opened)
        (Run.bind (set_multiple_lem fm.map i cnt v fits false)
          λ b becomes. returns (becomes, (_, refl)))

  -- free_map_release of a group with a sector that is free panics.
  pub release_free_panics :
      (fm : FreeMap) (i cnt j : ℕ)
      → IsValid fm.map
      → i + cnt ≤ fm.map.bit_cnt
      → i ≤ j
      → j < i + cnt
      → bit fm.map j ≡ false
      → release disk i cnt fm ≡ panic
  unfolding release
  release_free_panics fm i cnt j v fits lo hi free =
      let (r, e, iff) = Run.Returns-eq (all_lem fm.map i cnt v fits) in
      elim (Bool-cases r) [ inl up ↦ let taken = iff.0 up j lo hi in cc | inr down ↦ rw (e, down) ]
