-- ===== src/Kernel/Linked/Rewrite.antt =====
-- The writes of list_insert and list_remove in lib/kernel/list.c, on the segments around them.
use implso.Prelude.{ℕ, ◌≡◌, ◌≢◌, true, false, List, [], ◌∷◌, ◌++◌, arith}
use implso.Kernel.Queue.{has}
use implso.Kernel.Linked
use implso.Kernel.Linked.{Memory, put}
use implso.Kernel.Linked.Distinct.{AreDistinct, one_more, has_ne}
use implso.Kernel.Linked.Segment.{Segment, last, link, at_last, Segment-Last, Segment-agree}

pub link-Segment :
    {m : Memory} {a y : ℕ} (e : ℕ) (xs : List ℕ)
    → Segment m a xs y
    → AreDistinct (a ∷ xs)
    → has y xs ≡ false
    → has e (a ∷ xs) ≡ false
    → e ≢ y
    → Segment (Linked.link y e m) a (xs ++ (e ∷ [])) y
unfolding Linked.link
link-Segment {a} {y} e [] (last f g) d hy he ne =
    link (ground (arith, f, g)) (ground (arith, f, g)) (last (ground arith) (ground arith))
link-Segment {m} {a} {y} e (x ∷ xs) (link f g s) (one_more out d) hy he ne =
    elim (Segment-Last xs s) [
      | at_last p h _ k ↦
          link (ground (arith, f, k, has_ne p a (x ∷ xs) h out)) (ground (arith, g))
            (link-Segment e xs s d (ground (arith, hy)) (ground (arith, he)) ne)
    ]

-- The segment after the place of the insertion.
pub link-Segment_after :
    {m : Memory} {a y b : ℕ} (e : ℕ) (xs : List ℕ) {ys : List ℕ}
    → Segment m a xs y
    → Segment m y ys b
    → ((z : ℕ) → has z (a ∷ xs) ≡ true → has z (y ∷ ys) ≡ false)
    → has y (ys ++ (b ∷ [])) ≡ false
    → has e (y ∷ ys) ≡ false
    → has e (ys ++ (b ∷ [])) ≡ false
    → Segment (Linked.link y e m) y ys b
unfolding Linked.link
link-Segment_after {m} {a} {y} {b} e xs {ys} s t apart hy he he' = elim (Segment-Last xs s) [
  | at_last p h _ k ↦
      Segment-agree
        (λ z i. ground (arith, has_ne z e (y ∷ ys) i he, has_ne z p (y ∷ ys) i (apart p h), k))
        (λ z i. ground (arith, has_ne z e (ys ++ (b ∷ [])) i he', has_ne z y (ys ++ (b ∷ [])) i hy))
        t
]

-- The segment before a removed element.
pub unlink-Segment :
    {m : Memory} {a e y : ℕ} (xs : List ℕ)
    → Segment m a xs e
    → m.next e ≡ y
    → AreDistinct (a ∷ xs)
    → has y xs ≡ false
    → has e (a ∷ xs) ≡ false
    → Segment (Linked.unlink e m) a xs y
unfolding Linked.unlink
unlink-Segment {a} {e} {y} [] (last f g) n d hy he =
    last (ground (arith, f, g, n)) (ground (arith, f, g, n))
unlink-Segment {m} {a} {e} {y} (x ∷ xs) (link f g s) n (one_more out d) hy he =
    elim (Segment-Last xs s) [
      | at_last p h _ k ↦
          link (ground (arith, f, k, has_ne p a (x ∷ xs) h out))
            (ground (arith, g, n, k, has_ne p e (x ∷ xs) h (ground arith)))
            (unlink-Segment xs s n d (ground (arith, hy)) (ground (arith, he)))
    ]

-- The segment after a removed element.
pub unlink-Segment_after :
    {m : Memory} {a e y b : ℕ} (xs : List ℕ) {ys : List ℕ}
    → Segment m a xs e
    → m.next e ≡ y
    → Segment m y ys b
    → has e (a ∷ xs) ≡ false
    → ((z : ℕ) → has z (a ∷ xs) ≡ true → has z (y ∷ ys) ≡ false)
    → has y (ys ++ (b ∷ [])) ≡ false
    → Segment (Linked.unlink e m) y ys b
unfolding Linked.unlink
unlink-Segment_after {m} {a} {e} {y} {b} xs {ys} s n t he apart hy = elim (Segment-Last xs s) [
  | at_last p h _ k ↦
      Segment-agree (λ z i. ground (arith, has_ne z p (y ∷ ys) i (apart p h), k))
        (λ z i. ground (arith, n, k, has_ne p e (a ∷ xs) h he, has_ne z y (ys ++ (b ∷ [])) i hy)) t
]
