-- ===== src/Kernel/Linked/Ends.antt =====
-- The ends of a list of lib/kernel/list.c: list_init, list_empty, and what stands where.
use implso.Prelude.{ℕ, ◌≡◌, refl, ◌≢◌, true, false, List, [], ◌∷◌, ◌++◌, arith, ◌==◌}
use implso.Prelude.Run.{ok, Returns, returns, pass}
use implso.Kernel.Queue.{has}
use implso.Kernel.Linked
use implso.Kernel.Linked.{Memory, null, put, head_of, tail_of}
use implso.Kernel.Linked.Distinct.{
  none_left, one_more, has-append, right-AreDistinct, AreDistinct-apart,
}
use implso.Kernel.Linked.Segment.{last, IsList, first_or, first_lem}

-- The element `y` is not among those before it, nor are these after it.
pub apart_lem :
    {m : Memory} {list : ℕ} (xs ys : List ℕ) (y : ℕ)
    → IsList m list (xs ++ (y ∷ ys))
    → (has y xs ≡ false)
      × ((z : ℕ) → has z (list ∷ xs) ≡ true → has z (y ∷ ys) ≡ false)
      × (has y (ys ++ (tail_of list ∷ [])) ≡ false)
apart_lem {list} xs ys y l = (
  ground (arith, AreDistinct-apart xs (y ∷ ys) l.distinct y),
  λ z e. ground (
    arith,
    e,
    l.head_outside,
    has-append list xs (y ∷ ys),
    AreDistinct-apart xs (y ∷ ys) l.distinct z,
  ),
  elim (right-AreDistinct xs (y ∷ ys) l.distinct) [
    | one_more out _ ↦ ground (
      arith,
      out,
      has-append y ys (tail_of list ∷ []),
      l.tail_outside,
      has-append (tail_of list) xs (y ∷ ys),
    )
  ],
)

-- list_init makes an empty list.
pub init_lem :
    (list : ℕ) (m : Memory) → list ≢ null → Returns (λ m'. IsList m' list []) (Linked.init list m)
unfolding Linked.init
init_lem list m n = pass (ground (arith, n)) (
    returns record {
      nonnull = n;
      head_prev = ground arith;
      tail_next = ground arith;
      links = last (ground arith) (ground arith);
      null_outside = refl;
      head_outside = refl;
      tail_outside = refl;
      distinct = none_left;
    })

pub head_ne_first :
    (list : ℕ) (ys : List ℕ) → has list ys ≡ false → list ≢ first_or ys (tail_of list)
head_ne_first list [] e = λ f. omega (arith, f)
head_ne_first list (y ∷ ys) e = λ f. ground (arith, f, e)

pub first_nonnull :
    (list : ℕ) (ys : List ℕ) → has null ys ≡ false → first_or ys (tail_of list) ≢ null
first_nonnull list [] e = λ f. omega (arith, f)
first_nonnull list (y ∷ ys) e = λ f. ground (arith, f, e)

-- An element of the list is neither the head nor among those before it.
pub not_before :
    {m : Memory} {list : ℕ} (xs ys : List ℕ) (e : ℕ)
    → IsList m list (xs ++ (e ∷ ys))
    → has e (list ∷ xs) ≡ false
not_before {list} xs ys e l =
    ground (
      arith,
      l.head_outside,
      has-append list xs (e ∷ ys),
      AreDistinct-apart xs (e ∷ ys) l.distinct e,
    )

pub is_empty_lem :
    (list : ℕ) (xs : List ℕ) (m : Memory)
    → IsList m list xs
    → Linked.is_empty list m ≡ ok (first_or xs (tail_of list) == tail_of list)
unfolding Linked.is_empty Linked.begin Linked.end
is_empty_lem list xs m l = ground (arith, l.nonnull, first_lem xs l.links)
