-- ===== src/Strings.antt =====
-- lib/string.c on a memory of bytes by their addresses, where 0 is NULL; sums of addresses do not wrap
-- round. A loop to the end of a string takes fuel, a unit for a round, and panics without it.
pub mod Compare
pub mod Copies
use implso.Prelude.{
  ℕ, zero, suc, ◌+◌, ◌-◌, ◌%◌, Bool, true, false, not, ◌&&◌, ◌||◌, Option, none, some, ltb, ◌==◌,
  if◌then◌else◌,
}
use implso.Prelude.Run.{Run, ok, panic, ◌>>=◌, ◌>>◌, assert}

abbrev pub Memory : Type 0
Memory = ℕ → ℕ

abbrev pub store : (a value : ℕ) → Memory → Memory
store a value m x = if x == a then value else m x

-- The int that a comparison returns.
pub data ℤ : Type 0 where
  pos : ℕ → ℤ
  negsuc : ℕ → ℤ

-- `*dst++ = *src++`, `size` times
unfoldable pub forward : (size dst src : ℕ) → Memory → Memory
forward zero dst src m = m
forward (suc size) dst src m = forward size (dst + 1) (src + 1) (store dst (m src) m)

-- `*--dst = *--src`, `size` times
unfoldable pub backward : (size dst src : ℕ) → Memory → Memory
backward zero dst src m = m
backward (suc size) dst src m = backward size (dst - 1) (src - 1) (store (dst - 1) (m (src - 1)) m)

unfoldable pub memcpy : (dst src size : ℕ) → Memory → Run (ℕ × Memory)
memcpy dst src size m = do
  assert (not (dst == 0) || (size == 0))
  assert (not (src == 0) || (size == 0))
  ok (dst, forward size dst src m)

-- What is returned is the variable that the loop has moved.
unfoldable pub memmove : (dst src size : ℕ) → Memory → Run (ℕ × Memory)
memmove dst src size m = do
  assert (not (dst == 0) || (size == 0))
  assert (not (src == 0) || (size == 0))
  ok (
      if ltb dst src
      then (dst + size, forward size dst src m)
      else (dst + size - size, backward size (dst + size) (src + size) m))

unfoldable pub fill_loop : (size dst value : ℕ) → Memory → Memory
fill_loop zero dst value m = m
fill_loop (suc size) dst value m = fill_loop size (dst + 1) value (store dst (value % 256) m)

unfoldable pub memset : (dst value size : ℕ) → Memory → Run (ℕ × Memory)
memset dst value size m = do
  assert (not (dst == 0) || (size == 0))
  ok (dst, fill_loop size dst value m)

-- `*a > *b ? +1 : -1`
abbrev pub sign : (x y : ℕ) → ℤ
sign x y = if ltb y x then pos 1 else negsuc 0

unfoldable pub compare_loop : (size a b : ℕ) → Memory → ℤ
compare_loop zero a b m = pos 0
compare_loop (suc size) a b m =
    let rest = compare_loop size (a + 1) (b + 1) m in if m a == m b then rest else sign (m a) (m b)

unfoldable pub memcmp : (a b size : ℕ) → Memory → Run ℤ
memcmp a b size m = do
  assert (not (a == 0) || (size == 0))
  assert (not (b == 0) || (size == 0))
  ok (compare_loop size a b m)

-- `*a < *b ? -1 : *a > *b`
abbrev pub order : (x y : ℕ) → ℤ
order x y = if ltb x y then negsuc 0 else if ltb y x then pos 1 else pos 0

unfoldable pub strcmp_loop : (fuel a b : ℕ) → Memory → Run ℤ
strcmp_loop zero a b m = panic
strcmp_loop (suc fuel) a b m = elim (not (m a == 0)) [
  | true ↦ elim (m a == m b) [
    | true ↦ strcmp_loop fuel (a + 1) (b + 1) m
    | false ↦ ok (order (m a) (m b))
  ]
  | false ↦ ok (order (m a) (m b))
]

unfoldable pub strcmp : (fuel a b : ℕ) → Memory → Run ℤ
strcmp fuel a b m = do assert (not (a == 0)); assert (not (b == 0)); strcmp_loop fuel a b m

unfoldable pub find_byte : (size block ch : ℕ) → Memory → Option ℕ
find_byte zero block ch m = none
find_byte (suc size) block ch m =
    let rest = find_byte size (block + 1) ch m in if m block == ch then some block else rest

unfoldable pub memchr : (block ch size : ℕ) → Memory → Run (Option ℕ)
memchr block ch size m = do
  assert (not (block == 0) || (size == 0))
  ok (find_byte size block (ch % 256) m)

unfoldable pub strchr_loop : (fuel string c : ℕ) → Memory → Run (Option ℕ)
strchr_loop zero string c m = panic
strchr_loop (suc fuel) string c m = elim (m string == c) [
  | true ↦ ok (some string)
  | false ↦ elim (m string == 0) [ true ↦ ok none | false ↦ strchr_loop fuel (string + 1) c m ]
]

unfoldable pub strchr : (fuel string c : ℕ) → Memory → Run (Option ℕ)
strchr fuel string c m = do assert (not (string == 0)); strchr_loop fuel string (c % 256) m

abbrev pub is_some : Option ℕ → Bool
is_some none = false
is_some (some x) = true

-- The loops of strcspn and strspn: on to the first character that strchr finds in `set`, for `wanted`
-- true, or does not find.
unfoldable pub span_loop : (wanted : Bool) (fuel string set length : ℕ) → Memory → Run ℕ
span_loop wanted zero string set length m = panic
span_loop wanted (suc fuel) string set length m = elim (m (string + length) == 0) [
  | true ↦ ok length
  | false ↦ do
    found ← strchr (suc fuel) set (m (string + length)) m
    elim (if wanted then is_some found else not (is_some found)) [
      | true ↦ ok length
      | false ↦ span_loop wanted fuel string set (length + 1) m
    ]
]

unfoldable pub strcspn : (fuel string stop : ℕ) → Memory → Run ℕ
strcspn fuel string stop m = span_loop true fuel string stop 0 m

unfoldable pub strspn : (fuel string skip : ℕ) → Memory → Run ℕ
strspn fuel string skip m = span_loop false fuel string skip 0 m

unfoldable pub strpbrk : (fuel string stop : ℕ) → Memory → Run (Option ℕ)
strpbrk zero string stop m = panic
strpbrk (suc fuel) string stop m = elim (m string == 0) [
  | true ↦ ok none
  | false ↦ do
    found ← strchr (suc fuel) stop (m string) m
    elim (is_some found) [ true ↦ ok (some string) | false ↦ strpbrk fuel (string + 1) stop m ]
]

unfoldable pub strrchr_loop : (fuel string c : ℕ) (p : Option ℕ) → Memory → Run (Option ℕ)
strrchr_loop zero string c p m = panic
strrchr_loop (suc fuel) string c p m = elim (m string == 0) [
  | true ↦ ok p
  | false ↦ strrchr_loop fuel (string + 1) c (if m string == c then some string else p) m
]

unfoldable pub strrchr : (fuel string c : ℕ) → Memory → Run (Option ℕ)
strrchr fuel string c m = strrchr_loop fuel string (c % 256) none m

unfoldable pub strlen_loop : (fuel p : ℕ) → Memory → Run ℕ
strlen_loop zero p m = panic
strlen_loop (suc fuel) p m = elim (m p == 0) [ true ↦ ok p | false ↦ strlen_loop fuel (p + 1) m ]

unfoldable pub strlen : (fuel string : ℕ) → Memory → Run ℕ
strlen fuel string m = do assert (not (string == 0)); p ← strlen_loop fuel string m; ok (p - string)

-- The rounds that are left are `maxlen - length`.
unfoldable pub strnlen_loop : (rounds string length : ℕ) → Memory → ℕ
strnlen_loop zero string length m = length
strnlen_loop (suc rounds) string length m =
    let rest = strnlen_loop rounds string (length + 1) m in
    if m (string + length) == 0 then length else rest

unfoldable pub strnlen : (string maxlen : ℕ) → Memory → ℕ
strnlen string maxlen m = strnlen_loop maxlen string 0 m

abbrev pub lesser : ℕ → ℕ → ℕ
lesser x y = if ltb x y then x else y

-- memcpy of `cnt` bytes and a byte 0 behind them.
unfoldable pub put_text : (dst src cnt : ℕ) → Memory → Run Memory
put_text dst src cnt m = do (_, m') ← memcpy dst src cnt m; ok (store (dst + cnt) 0 m')

unfoldable pub strlcpy : (fuel dst src size : ℕ) → Memory → Run (ℕ × Memory)
strlcpy fuel dst src size m = do
  assert (not (dst == 0))
  assert (not (src == 0))
  src_len ← strlen fuel src m
  if ltb 0 size
      then (do m' ← put_text dst src (lesser src_len (size - 1)) m; ok (src_len, m'))
      else ok (src_len, m)

unfoldable pub strlcat : (fuel dst src size : ℕ) → Memory → Run (ℕ × Memory)
strlcat fuel dst src size m = do
  assert (not (dst == 0))
  assert (not (src == 0))
  src_len ← strlen fuel src m
  dst_len ← strlen fuel dst m
  if ltb 0 size && ltb dst_len size
      then (do
        m' ← put_text (dst + dst_len) src (lesser src_len (size - dst_len - 1)) m
        ok (src_len + dst_len, m'))
      else ok (src_len + dst_len, m)

-- The loop of strtok_r over delimiters, up to the first character that is none or the end.
unfoldable pub skip_loop : (fuel s delimiters : ℕ) → Memory → Run ℕ
skip_loop zero s delimiters m = panic
skip_loop (suc fuel) s delimiters m = do
  found ← strchr (suc fuel) delimiters (m s) m
  elim (is_some found) [
    | false ↦ ok s
    | true ↦ elim (m s == 0) [ true ↦ ok s | false ↦ skip_loop fuel (s + 1) delimiters m ]
  ]

-- `while (strchr (delimiters, *s) == NULL) s++;`
unfoldable pub token_loop : (fuel s delimiters : ℕ) → Memory → Run ℕ
token_loop zero s delimiters m = panic
token_loop (suc fuel) s delimiters m = do
  found ← strchr (suc fuel) delimiters (m s) m
  elim (is_some found) [ false ↦ token_loop fuel (s + 1) delimiters m | true ↦ ok s ]

-- The token, the new saved position and the memory. `saved` is the position before.
unfoldable pub strtok_r : (fuel s delimiters saved : ℕ) → Memory → Run (Option ℕ × ℕ × Memory)
strtok_r fuel s delimiters saved m = do
  assert (not (delimiters == 0))
  let start = if s == 0 then saved else s
  assert (not (start == 0))
  token ← skip_loop fuel start delimiters m
  if m token == 0 then ok (none, token, m) else (do
    end ← token_loop fuel token delimiters m
    if m end == 0 then ok (some token, end, m) else ok (some token, end + 1, store end 0 m))

-- The loop of strstr: `rounds` positions from `i` on.
unfoldable pub match_loop : (rounds i haystack needle needle_len : ℕ) → Memory → Run (Option ℕ)
match_loop zero i haystack needle needle_len m = ok none
match_loop (suc rounds) i haystack needle needle_len m = do
  c ← memcmp (haystack + i) needle needle_len m
  elim c [
    | pos zero ↦ ok (some (haystack + i))
    | pos (suc n) ↦ match_loop rounds (i + 1) haystack needle needle_len m
    | negsuc n ↦ match_loop rounds (i + 1) haystack needle needle_len m
  ]

unfoldable pub strstr : (fuel haystack needle : ℕ) → Memory → Run (Option ℕ)
strstr fuel haystack needle m = do
  haystack_len ← strlen fuel haystack m
  needle_len ← strlen fuel needle m
  if ltb haystack_len needle_len
      then ok none
      else match_loop (haystack_len - needle_len + 1) 0 haystack needle needle_len m
