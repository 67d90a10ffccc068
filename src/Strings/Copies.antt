-- ===== src/Strings/Copies.antt =====
-- memcpy, memmove and strlcpy of lib/string.c: the bytes that they copy.
use implso.Prelude.{
  ℕ, zero, suc, ◌+◌, ◌-◌, ◌≤◌, ◌<◌, ◌≡◌, ◌≢◌, ◌⊎◌, refl, ◌∙◌, true, false, not, ◌&&◌, ◌||◌, ap, sym,
  List, [], ◌∷◌, length, arith, ltb, leb, ◌==◌, if◌then◌else◌, inl, inr, Bool-cases,
}
use implso.Prelude.Run
use implso.Prelude.Run.{Run, ok, ◌>>=◌, Returns, returns, pass}
use implso.Kernel.Hash.Bytes.{IsString, ended, char}
use implso.Strings.{
  Memory, store, forward, backward, memcpy, memmove, strlen, strlen_loop, strlcpy, put_text, lesser,
}

-- The memory after a copy of `size` bytes at once.
abbrev pub copied : (dst src size : ℕ) → Memory → Memory
copied dst src size m a = if leb dst a && ltb a (dst + size) then m (src + (a - dst)) else m a

store_self : (a v : ℕ) (m : Memory) → store a v m a ≡ v
store_self a v m = ground arith

store_other : (a v x : ℕ) (m : Memory) → x ≢ a → store a v m x ≡ m x
store_other a v x m ne = ground (arith, ne)

inside_copied :
    (dst src size : ℕ) (m : Memory) (a : ℕ)
    → dst ≤ a
    → a < dst + size
    → copied dst src size m a ≡ m (src + (a - dst))
inside_copied dst src size m a lo hi = ground (arith, lo, hi)

outside_copied :
    (dst src size : ℕ) (m : Memory) (a : ℕ)
    → (a < dst) ⊎ (dst + size ≤ a)
    → copied dst src size m a ≡ m a
outside_copied dst src size m a out = ground (arith, out)

store_read : (dst v : ℕ) (m : Memory) (x y : ℕ) → x ≢ dst → x ≡ y → store dst v m x ≡ m y
store_read dst v m x y ne e = store_other dst v x m ne ∙ ap m e

-- Where an address stands to the bytes from `dst` on, of which the one at `done` is written.
data Place (dst size done a : ℕ) : Type 0 where
  out : (a < dst) ⊎ (dst + size ≤ a) → Place dst size done a
  at_done : a ≡ done → Place dst size done a
  left : dst ≤ a → a < dst + size → a ≢ done → Place dst size done a

place : (dst size done a : ℕ) → Place dst size done a
place dst size done a = elim (Bool-cases (a == done)) [
  | inl e ↦ at_done (ground (arith, e))
  | inr e ↦ elim (Bool-cases (leb dst a && ltb a (dst + size))) [
    | inl i ↦ left (ground (arith, i)) (ground (arith, i)) (ground (arith, e))
    | inr o ↦ out (ground (arith, o))
  ]
]

-- Upwards, where the bytes still to read are not written before.
forward_lem :
    (size dst src : ℕ) (m : Memory) (a : ℕ)
    → (dst ≤ src) ⊎ (src + size ≤ dst)
    → forward size dst src m a ≡ copied dst src size m a
unfolding forward
forward_lem zero dst src m a apart = sym (outside_copied dst src 0 m a (ground arith))
forward_lem (suc size) dst src m a apart =
    forward_lem size (dst + 1) (src + 1) (store dst (m src) m) a (ground (arith, apart)) ∙ step
  where
    step : copied (dst + 1) (src + 1) size (store dst (m src) m) a ≡ copied dst src (suc size) m a
    step = elim (place dst (suc size) dst a) [
      | out o ↦
          outside_copied (dst + 1) (src + 1) size (store dst (m src) m) a (ground (arith, o))
          ∙ (store_other dst (m src) a m (ground (arith, o))
              ∙ sym (outside_copied dst src (suc size) m a o))
      | at_done e ↦
          outside_copied (dst + 1) (src + 1) size (store dst (m src) m) a (ground (arith, e))
          ∙ (ap (store dst (m src) m) e
              ∙ (store_self dst (m src) m
                  ∙ (ap m (omega (arith, e))
                      ∙ sym (
                          inside_copied dst src (suc size) m a (omega (arith, e))
                            (omega (arith, e))))))
      | left lo hi ne ↦
          inside_copied (dst + 1) (src + 1) size (store dst (m src) m) a (omega (arith, lo, ne))
            (omega (arith, hi))
          ∙ (store_read dst (m src) m (src + 1 + (a - (dst + 1))) (src + (a - dst))
                (ground (arith, apart, lo, hi, ne)) (omega (arith, lo, ne))
              ∙ sym (inside_copied dst src (suc size) m a lo hi))
    ]

-- Downwards.
backward_lem :
    (size dst src : ℕ) (m : Memory) (a : ℕ)
    → src ≤ dst
    → backward size (dst + size) (src + size) m a ≡ copied dst src size m a
unfolding backward
backward_lem zero dst src m a below = sym (outside_copied dst src 0 m a (ground arith))
backward_lem (suc size) dst src m a below =
    let e : dst + suc size - 1 ≡ dst + size = omega arith in
    let f : src + suc size - 1 ≡ src + size = omega arith in
    rw (backward, e, f)
      (backward_lem size dst src (store (dst + size) (m (src + size)) m) a below ∙ step)
  where
    m' : Memory
    m' = store (dst + size) (m (src + size)) m

    step : copied dst src size m' a ≡ copied dst src (suc size) m a
    step = elim (place dst (suc size) (dst + size) a) [
      | out o ↦
          outside_copied dst src size m' a (ground (arith, o))
          ∙ (store_other (dst + size) _ a m (ground (arith, o))
              ∙ sym (outside_copied dst src (suc size) m a o))
      | at_done e ↦
          outside_copied dst src size m' a (ground (arith, e))
          ∙ (ap m' e
              ∙ (store_self (dst + size) (m (src + size)) m
                  ∙ (ap m (omega (arith, e))
                      ∙ sym (
                          inside_copied dst src (suc size) m a (omega (arith, e))
                            (omega (arith, e))))))
      | left lo hi ne ↦
          inside_copied dst src size m' a lo (omega (arith, hi, ne))
          ∙ (store_read (dst + size) (m (src + size)) m (src + (a - dst)) (src + (a - dst))
                (ground (arith, below, lo, hi, ne)) refl
              ∙ sym (inside_copied dst src (suc size) m a lo hi))
    ]

-- memmove between addresses that are not null does not panic, and leaves the memory as a copy of
-- all bytes at once would, also where the two ranges overlap. It returns the end of the range
-- written where this one lies below the other, and its start otherwise.
pub memmove_lem :
    (dst src size : ℕ) (m : Memory)
    → dst ≢ 0
    → src ≢ 0
    → Returns
        (λ r.
          (r.0 ≡ (if ltb dst src then dst + size else dst))
          × ((a : ℕ) → r.1 a ≡ copied dst src size m a))
        (memmove dst src size m)
unfolding memmove
memmove_lem dst src size m d s = pass {b = not (dst == 0) || (size == 0)} (ground (arith, d)) (
    pass {b = not (src == 0) || (size == 0)} (ground (arith, s)) (elim (Bool-cases (ltb dst src)) [
      | inl e ↦ rw e (returns (refl, λ a. forward_lem size dst src m a (inl (ground (arith, e)))))
      | inr e ↦ rw e (returns (omega arith, λ a. backward_lem size dst src m a (ground (arith, e))))
    ]))

strlen_loop_lem :
    (fuel p : ℕ) (m : Memory) (chars : List ℕ)
    → IsString m p chars
    → length chars < fuel
    → strlen_loop fuel p m ≡ ok (p + length chars)
unfolding strlen_loop
strlen_loop_lem zero p m chars t h = elim h [ ]
strlen_loop_lem (suc fuel) p m [] (ended e) h = rw (strlen_loop, e) (ap ok (omega arith))
strlen_loop_lem (suc fuel) p m (c ∷ chars) (char e ne t) h =
    let z : (c == 0) ≡ false = ground (arith, ne) in
    rw (strlen_loop, e, z)
      (strlen_loop_lem fuel (p + 1) m chars t (omega arith) ∙ ap ok (omega arith))

-- strlen of a string gives the number of its characters.
pub strlen_lem :
    (fuel string : ℕ) (m : Memory) (chars : List ℕ)
    → string ≢ 0
    → IsString m string chars
    → length chars < fuel
    → strlen fuel string m ≡ ok (length chars)
unfolding strlen
strlen_lem fuel string m chars ne t h =
    let z : (string == 0) ≡ false = ground (arith, ne) in
    rw (z, strlen_loop_lem fuel string m chars t h) (ap ok (omega arith))

-- The memory after strlcpy: `cnt` bytes of the source and a byte 0 behind them.
abbrev pub copied_text : (dst src cnt : ℕ) → Memory → Memory
copied_text dst src cnt m a = if a == dst + cnt then 0 else copied dst src cnt m a

put_text_lem :
    (dst src cnt : ℕ) (m : Memory)
    → dst ≢ 0
    → src ≢ 0
    → (dst ≤ src) ⊎ (src + cnt ≤ dst)
    → Returns (λ m'. (a : ℕ) → m' a ≡ copied_text dst src cnt m a) (put_text dst src cnt m)
unfolding put_text memcpy
put_text_lem dst src cnt m d s apart =
    let z : (dst == 0) ≡ false = ground (arith, d) in
    let y : (src == 0) ≡ false = ground (arith, s) in
    rw (z, y)
      (returns (λ a. elim (Bool-cases (a == dst + cnt)) [
        | inl e ↦ rw e refl
        | inr e ↦ rw e (forward_lem cnt dst src m a apart)
      ]))

module _ (fuel dst src size : ℕ) (m : Memory) (chars : List ℕ) (d : dst ≢ 0) (s : src ≢ 0)
    (t : IsString m src chars) (enough : length chars < fuel)
    (apart : (dst + size ≤ src) ⊎ (src + length chars ≤ dst)) where
  -- strlcpy of a string into a buffer of a positive size that does not overlap it, neither address
  -- null, with more fuel than there are characters, does not panic. It returns the length of the
  -- string, and writes as many of its characters as leave room for a byte 0 in the buffer, that
  -- byte behind them, and nothing else.
  pub strlcpy_lem :
      0 < size
      → Returns
          (λ r.
            (r.0 ≡ length chars)
            × ((a : ℕ) → r.1 a ≡ copied_text dst src (lesser (length chars) (size - 1)) m a))
          (strlcpy fuel dst src size m)
  unfolding strlcpy
  strlcpy_lem some_room =
      let z : (dst == 0) ≡ false = ground (arith, d) in
      let y : (src == 0) ≡ false = ground (arith, s) in
      let r : ltb 0 size ≡ true = ground (arith, some_room) in
      rw (z, y, strlen_lem fuel src m chars s t enough, r)
        (Run.bind
          (put_text_lem dst src (lesser (length chars) (size - 1)) m d s (ground (arith, apart)))
          (λ m' c. returns (refl, c)))
