-- ===== src/Tests/Bitmaps.antt =====
-- lib/kernel/bitmap.c and filesys/free-map.c on a bitmap of ten bits.
use implso.Prelude.{
  ℕ, zero, suc, ◌^◌, ◌<◌, ◌≡◌, refl, true, false, none, some, List, [], ◌∷◌, ◌++◌, ◌*◌, length,
  arith, get_or,
}
use implso.Prelude.Run.{ok, panic, Returns}
use implso.Kernel.Bitmap.{Bitmap, set, test, count, scan, scan_and_flip}
use implso.Kernel.Bitmap.Single.{IsValid, bit}
use implso.Kernel.Bitmap.Storage
use implso.Filesys.FreeMap.{MapFile, FreeMap, allocate}
use implso.Filesys.FreeMap.Allocate.{Allocated, allocate_lem}

-- Bits 0, 1, 2 and 5 of ten are set.
abbrev pub ten : Bitmap
ten = record { bit_cnt = 10; bits = 0b100111 ∷ [] }

ten_words : (i : ℕ) → get_or ten.bits i 0 < 2 ^ 32
ten_words zero = omega arith
ten_words (suc i) = omega arith

pub ten-IsValid : IsValid ten
ten-IsValid = record { fits = omega arith; allocated = refl; words = ten_words }

scan-ten : scan ten 0 3 false ≡ ok 6
unfolding scan
scan-ten = refl

count-ten : count ten 0 10 true ≡ ok 4
unfolding count
count-ten = refl

flip_ten : scan_and_flip ten 0 2 false ≡ ok (3, record { bit_cnt = 10; bits = 0b111111 ∷ [] })
unfolding scan_and_flip set
flip_ten = refl

past_end : test ten 10 ≡ panic
unfolding test
past_end = refl

-- What a file has behind the words of a buffer that is written at its beginning.
unfoldable pub behind : (contents buffer : List ℕ) → List ℕ
behind contents [] = contents
behind [] (y ∷ ys) = []
behind (x ∷ xs) (y ∷ ys) = behind xs ys

-- A file that takes every write.
abbrev pub good_disk : MapFile
good_disk = record {
  write_at = λ contents buffer. (4 * length buffer, buffer ++ behind contents buffer);
  read_at = λ contents buffer. (4 * length contents, contents);
  written = λ contents buffer h. (behind contents buffer, refl);
}

no_words :
    (contents buffer : List ℕ)
    → 0 ≡ 4 * length buffer
    → (rest : List ℕ) × (contents ≡ buffer ++ rest)
no_words contents [] h = (contents, refl)
no_words contents (x ∷ xs) h = absurd (omega arith)

-- A file that takes no byte.
abbrev stuck_disk : MapFile
stuck_disk = record {
  write_at = λ contents buffer. (0, contents);
  read_at = λ contents buffer. (4 * length contents, contents);
  written = no_words;
}

abbrev open_map : FreeMap
open_map = record { map = ten; file = some (0 ∷ []) }

allocate_lem_example : Returns (Allocated good_disk open_map 2) (allocate good_disk 2 open_map)
allocate_lem_example = allocate_lem good_disk open_map 2 ten-IsValid

-- The first two free sectors are given, and the map is in the file; or the file takes no byte, and the
-- map is as before.
allocate_two :
    allocate good_disk 2 open_map
    ≡ ok (
      some 3,
      record { map = record { bit_cnt = 10; bits = 0b111111 ∷ [] }; file = some (0b111111 ∷ []) },
    )
unfolding allocate scan_and_flip set Storage.write behind
allocate_two = refl

allocate_two_stuck : allocate stuck_disk 2 open_map ≡ ok (none, open_map)
unfolding allocate scan_and_flip set Storage.write
allocate_two_stuck = refl

low_bits : (j : ℕ) → j < 2 → bit ten j ≡ true
unfolding bit
low_bits zero h = refl
low_bits (suc zero) h = refl
low_bits (suc (suc j)) h = absurd (omega arith)

bit_three : bit ten 3 ≡ false
unfolding bit
bit_three = refl
