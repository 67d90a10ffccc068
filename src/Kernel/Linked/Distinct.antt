-- ===== src/Kernel/Linked/Distinct.antt =====
-- Sequences of distinct addresses, as a list of lib/kernel/list.c holds them.
use implso.Prelude.{
  ℕ, ◌≡◌, refl, ◌≢◌, true, false, ◌||◌, List, [], ◌∷◌, ◌++◌, arith, ◌==◌, Bool-cases, inl, inr,
}
use implso.Kernel.Queue.{has, has-remove, remove}

-- No address is there twice.
pub data AreDistinct : List ℕ → Type 0 where
  none_left : AreDistinct []
  one_more : {x : ℕ} {xs : List ℕ} → has x xs ≡ false → AreDistinct xs → AreDistinct (x ∷ xs)

pub has_ne : (p a : ℕ) (xs : List ℕ) → has p xs ≡ true → has a xs ≡ false → p ≢ a
has_ne p a xs e f h = ground (arith, e, f, h)

pub has-append : (z : ℕ) (xs ys : List ℕ) → has z (xs ++ ys) ≡ has z xs || has z ys
has-append z [] ys = refl
has-append z (x ∷ xs) ys = ground (arith, has-append z xs ys)

pub append-AreDistinct :
    (xs ys : List ℕ)
    → AreDistinct xs
    → AreDistinct ys
    → ((z : ℕ) → has z xs ≡ true → has z ys ≡ false)
    → AreDistinct (xs ++ ys)
append-AreDistinct [] ys d d' apart = d'
append-AreDistinct (x ∷ xs) ys (one_more out d) d' apart =
    one_more (ground (arith, has-append x xs ys, out, apart x))
      (append-AreDistinct xs ys d d' (λ z e. apart z (ground (arith, e))))

pub left-AreDistinct : (xs ys : List ℕ) → AreDistinct (xs ++ ys) → AreDistinct xs
left-AreDistinct [] ys d = none_left
left-AreDistinct (x ∷ xs) ys (one_more out d) =
    one_more (ground (arith, has-append x xs ys, out)) (left-AreDistinct xs ys d)

pub right-AreDistinct : (xs ys : List ℕ) → AreDistinct (xs ++ ys) → AreDistinct ys
right-AreDistinct [] ys d = d
right-AreDistinct (x ∷ xs) ys (one_more out d) = right-AreDistinct xs ys d

pub AreDistinct-apart :
    (xs ys : List ℕ) → AreDistinct (xs ++ ys) → (z : ℕ) → has z xs ≡ true → has z ys ≡ false
AreDistinct-apart (x ∷ xs) ys (one_more out d) z e =
    ground (arith, e, has-append x xs ys, out, AreDistinct-apart xs ys d z)
AreDistinct-apart [] ys d z e = ground (arith, e)

pub insert-AreDistinct :
    (e : ℕ) (xs ys : List ℕ)
    → AreDistinct (xs ++ ys)
    → has e (xs ++ ys) ≡ false
    → AreDistinct (xs ++ (e ∷ ys))
insert-AreDistinct e [] ys d out = one_more out d
insert-AreDistinct e (x ∷ xs) ys (one_more out' d) out =
    one_more (ground (arith, out, out', has-append x xs ys, has-append x xs (e ∷ ys)))
      (insert-AreDistinct e xs ys d (ground (arith, out)))

pub remove-AreDistinct :
    (e : ℕ) (xs ys : List ℕ) → AreDistinct (xs ++ (e ∷ ys)) → AreDistinct (xs ++ ys)
remove-AreDistinct e [] ys (one_more out d) = d
remove-AreDistinct e (x ∷ xs) ys (one_more out d) =
    one_more (ground (arith, out, has-append x xs ys, has-append x xs (e ∷ ys)))
      (remove-AreDistinct e xs ys d)

pub erase-AreDistinct : (e : ℕ) (xs : List ℕ) → AreDistinct xs → AreDistinct (remove e xs)
erase-AreDistinct e [] d = none_left
erase-AreDistinct e (x ∷ xs) (one_more out d) = elim (Bool-cases (x == e)) [
  | inl here ↦ rw here (erase-AreDistinct e xs d)
  | inr there ↦
      rw there (one_more (ground (arith, out, has-remove e x xs)) (erase-AreDistinct e xs d))
]
