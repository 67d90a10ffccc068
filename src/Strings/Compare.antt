-- ===== src/Strings/Compare.antt =====
-- strcmp of lib/string.c against the order of sequences of characters.
use implso.Prelude.{
  ℕ, zero, suc, ◌+◌, ◌<◌, ◌≡◌, ◌≢◌, refl, true, false, List, [], ◌∷◌, length, arith, ltb, ◌==◌,
  if◌then◌else◌, inl, inr, Bool-cases,
}
use implso.Prelude.Run.{ok}
use implso.Kernel.Hash.Bytes.{IsString, ended, char}
use implso.Strings.{Memory, ℤ, pos, negsuc, order, strcmp, strcmp_loop}

-- The order of sequences by their first difference, as the sign of an integer.
abbrev pub lexical : List ℕ → List ℕ → ℤ
lexical [] [] = pos 0
lexical [] (y ∷ ys) = negsuc 0
lexical (x ∷ xs) [] = pos 1
lexical (x ∷ xs) (y ∷ ys) = if x == y then lexical xs ys else order x y

strcmp_loop_lem :
    (fuel a b : ℕ) (m : Memory) (xs ys : List ℕ)
    → IsString m a xs
    → IsString m b ys
    → length xs < fuel
    → strcmp_loop fuel a b m ≡ ok (lexical xs ys)
unfolding strcmp_loop
strcmp_loop_lem zero a b m xs ys s t h = elim h [ ]
strcmp_loop_lem (suc fuel) a b m [] [] (ended e) (ended f) h = rw (strcmp_loop, e, e, f) refl
strcmp_loop_lem (suc fuel) a b m [] (y ∷ ys) (ended e) (char f ne t) h =
    let lt : ltb 0 y ≡ true = ground (arith, ne) in rw (strcmp_loop, e, e, f, lt) refl
strcmp_loop_lem (suc fuel) a b m (x ∷ xs) [] (char e ne s) (ended f) h =
    let z : (x == 0) ≡ false = ground (arith, ne) in
    let lt : ltb 0 x ≡ true = ground (arith, ne) in
    let nlt : ltb x 0 ≡ false = ground arith in rw (strcmp_loop, e, z, e, f, z, e, f, nlt, lt) refl
strcmp_loop_lem (suc fuel) a b m (x ∷ xs) (y ∷ ys) (char e ne s) (char f me t) h =
    let z : (x == 0) ≡ false = ground (arith, ne) in
    elim (Bool-cases (x == y)) [
      | inl q ↦
          rw (strcmp_loop, e, z, e, f, q)
            (strcmp_loop_lem fuel (a + 1) (b + 1) m xs ys s t (omega arith))
      | inr q ↦ rw (strcmp_loop, e, z, e, f, q, e, f) refl
    ]

-- strcmp of two strings that are not at null, with more fuel than the first has characters, gives
-- the order of their sequences of characters by the first difference, where a prefix comes first.
pub strcmp_lem :
    (fuel a b : ℕ) (m : Memory) (xs ys : List ℕ)
    → a ≢ 0
    → b ≢ 0
    → IsString m a xs
    → IsString m b ys
    → length xs < fuel
    → strcmp fuel a b m ≡ ok (lexical xs ys)
unfolding strcmp
strcmp_lem fuel a b m xs ys p q s t h =
    let z : (a == 0) ≡ false = ground (arith, p) in
    let y : (b == 0) ≡ false = ground (arith, q) in
    rw (z, y) (strcmp_loop_lem fuel a b m xs ys s t h)
