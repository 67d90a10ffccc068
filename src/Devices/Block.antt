-- ===== src/Devices/Block.antt =====
-- devices/block.c: a block device as an array of sectors. The driver behind it (ide.c) gives back
-- what was written last; the counters of reads and writes are left out.
use implso.Prelude.{
  ℕ, ◌+◌, ◌*◌, ◌/◌, ◌%◌, ◌^◌, ◌<◌, ◌≡◌, refl, Bool, false, not, arith, ltb, ◌==◌, if◌then◌else◌,
  lt→ltb, ap, Bool-cases, inl, inr,
}
use implso.Prelude.Run.{Run, ok, ◌>>◌, assert}

abbrev pub block_sector_size : ℕ
block_sector_size = 512

-- The byte at each offset below `block_sector_size`.
abbrev pub Sector : Type 0
Sector = ℕ → ℕ

abbrev pub zeros : Sector
zeros _ = 0

pub record Block : Type 0 where
  pub size : ℕ
  pub foreign : Bool  -- `type == BLOCK_FOREIGN`
  pub sectors : ℕ → Sector

-- The PANIC of check_sector.
abbrev pub check_sector : Block → ℕ → Run (Unit {0})
check_sector block sector = assert (ltb sector block.size)

unfoldable pub read : Block → ℕ → Run Sector
read block sector = check_sector block sector >> ok (block.sectors sector)

-- The device with one sector overwritten.
abbrev pub stored : Block → ℕ → Sector → Block
stored block sector buffer = record block {
  sectors = λ s. if sector == s then buffer else block.sectors s;
}

unfoldable pub write : Block → ℕ → Sector → Run Block
write block sector buffer = do
  check_sector block sector
  assert (not block.foreign)
  ok (stored block sector buffer)

pub read-ok :
    (block : Block) (sector : ℕ)
    → sector < block.size
    → read block sector ≡ ok (block.sectors sector)
unfolding read
read-ok block sector h = rw (lt→ltb _ _ h)

pub write-ok :
    (block : Block) (sector : ℕ) (buffer : Sector)
    → sector < block.size
    → block.foreign ≡ false
    → write block sector buffer ≡ ok (stored block sector buffer)
unfolding write
write-ok block sector buffer h f = rw (lt→ltb _ _ h, f)

-- A sector as an array of 32-bit words, lowest byte first.
unfoldable pub get_word : Sector → ℕ → ℕ
get_word s i = s (4 * i) + 2 ^ 8 * s (4 * i + 1) + 2 ^ 16 * s (4 * i + 2) + 2 ^ 24 * s (4 * i + 3)

-- Byte `k` of a word.
abbrev pub byte_of : ℕ → ℕ → ℕ
byte_of w k =
    if k == 0
    then w % 256
    else if k == 1
    then w / 2 ^ 8 % 256
    else if k == 2
    then w / 2 ^ 16 % 256
    else w / 2 ^ 24 % 256

unfoldable pub put_word : Sector → ℕ → ℕ → Sector
put_word s i w o = if o / 4 == i then byte_of w (o % 4) else s o

put_word_byte :
    (s : Sector) (i w j k : ℕ)
    → k < 4
    → put_word s i w (4 * j + k) ≡ (if i == j then byte_of w k else s (4 * j + k))
unfolding put_word
put_word_byte s i w j k h =
    let q : (4 * j + k) / 4 ≡ j = omega arith in
    let r : (4 * j + k) % 4 ≡ k = omega arith in
    rw (q, r) (ap (λ t. if t then byte_of w k else s (4 * j + k)) (ground arith))

-- The four bytes make up the word.
word_bytes :
    (w : ℕ)
    → w < 2 ^ 32
    → w % 256
        + 2 ^ 8 * (w / 2 ^ 8 % 256)
        + 2 ^ 16 * (w / 2 ^ 16 % 256)
        + 2 ^ 24 * (w / 2 ^ 24 % 256)
      ≡ w
word_bytes w h = omega arith

pub get_word-put_word :
    (s : Sector) (i w j : ℕ)
    → w < 2 ^ 32
    → get_word (put_word s i w) j ≡ (if i == j then w else get_word s j)
unfolding get_word
get_word-put_word s i w j h =
    let z : 4 * j + 0 ≡ 4 * j = omega arith in
    let b0 = rw z at (put_word_byte s i w j 0 (omega arith)) in
    elim (Bool-cases (i == j)) [
      | inl e ↦
          rw
            (
              b0,
              put_word_byte s i w j 1 (omega arith),
              put_word_byte s i w j 2 (omega arith),
              put_word_byte s i w j 3 (omega arith),
              e,
            )
            (word_bytes w h)
      | inr e ↦ rw (
        b0,
        put_word_byte s i w j 1 (omega arith),
        put_word_byte s i w j 2 (omega arith),
        put_word_byte s i w j 3 (omega arith),
        e,
      )
    ]

pub get_word-zeros : (i : ℕ) → get_word zeros i ≡ 0
unfolding get_word
get_word-zeros i = refl
