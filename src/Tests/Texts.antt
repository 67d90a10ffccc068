-- ===== src/Tests/Texts.antt =====
-- lib/string.c and lib/stdlib.c on a memory with the strings "hi" at 100 and "ho" at 200.
use implso.Prelude.{
  ℕ, ◌+◌, ◌-◌, ◌*◌, ◌≡◌, refl, [], ◌∷◌, length, List, arith, ◌==◌, ltb, if◌then◌else◌, inl,
}
use implso.Prelude.Run.{ok, Returns}
use implso.Kernel.Hash.Bytes.{IsString, ended, char}
use implso.Stdlib.{Order, binary_search, sort}
use implso.Stdlib.Heap.{SameOutside, sort-SameOutside}
use implso.Stdlib.Search.{IsSorted, FoundKey, binary_search_lem}
use implso.Strings.{order, Memory, memmove, strcmp, strlcpy, lesser}
use implso.Strings.Compare.{lexical, strcmp_lem}
use implso.Strings.Copies.{copied, copied_text, memmove_lem, strlcpy_lem}

abbrev words : Memory
words a =
    if a == 100
    then 104
    else if a == 101
    then 105
    else if a == 200
    then 104
    else if a == 201
    then 111
    else 0

abbrev hi : List ℕ
hi = 104 ∷ (105 ∷ [])

abbrev ho : List ℕ
ho = 104 ∷ (111 ∷ [])

hi-IsString : IsString words 100 hi
hi-IsString = char refl (λ e. omega (arith, e)) (char refl (λ e. omega (arith, e)) (ended refl))

ho-IsString : IsString words 200 ho
ho-IsString = char refl (λ e. omega (arith, e)) (char refl (λ e. omega (arith, e)) (ended refl))

memmove_lem_example :
    Returns
      (λ r.
        (r.0 ≡ (if ltb 101 100 then 101 + 4 else 101))
        × ((a : ℕ) → r.1 a ≡ copied 101 100 4 words a))
      (memmove 101 100 4 words)
memmove_lem_example = memmove_lem 101 100 4 words (λ e. omega (arith, e)) (λ e. omega (arith, e))

strcmp_lem_example : strcmp 3 100 200 words ≡ ok (lexical hi ho)
strcmp_lem_example =
    strcmp_lem 3 100 200 words hi ho (λ e. omega (arith, e)) (λ e. omega (arith, e)) hi-IsString
      ho-IsString (omega arith)

strlcpy_lem_example :
    Returns
      (λ r.
        (r.0 ≡ length hi)
        × ((a : ℕ) → r.1 a ≡ copied_text 50 100 (lesser (length hi) (2 - 1)) words a))
      (strlcpy 3 50 100 2 words)
strlcpy_lem_example =
    strlcpy_lem 3 50 100 2 words hi (λ e. omega (arith, e)) (λ e. omega (arith, e)) hi-IsString
      (omega arith) (inl (omega arith)) (omega arith)

-- The byte at an address as the element there: the key 110 among 100, 105, 110 and 115.
abbrev by_address : Order
by_address m a b = order (m a) (m b)

numbers-IsSorted : IsSorted (λ i. by_address (λ a. a) 110 (100 + i * 5)) 4
numbers-IsSorted = record {
  smaller = λ i j le lt e. ground (arith, e);
  greater = λ i j le lt e. ground (arith, e);
}

binary_search_lem_example :
    Returns
      (FoundKey (λ i. by_address (λ a. a) 110 (100 + i * 5)) (λ i. 100 + i * 5) 4)
      (binary_search by_address 5 110 100 4 5 (λ a. a))
binary_search_lem_example =
    binary_search_lem by_address 5 110 100 4 5 (λ a. a) (omega arith) numbers-IsSorted (omega arith)

sort-SameOutside_example :
    Returns (SameOutside 100 4 5 (λ a. 200 - a)) (sort by_address 100 4 5 (λ a. 200 - a))
sort-SameOutside_example =
    sort-SameOutside by_address 100 5 4 (λ a. 200 - a) (λ e. omega (arith, e)) (omega arith)
      (omega arith)
