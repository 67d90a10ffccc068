-- ===== src/Kernel/Linked/Remove.antt =====
-- list_remove of lib/kernel/list.c on whole lists.
use implso.Prelude.{ℕ, ◌≡◌, true, false, List, [], ◌∷◌, ◌++◌, arith}
use mathlib.Core.List.{append-nil}
use implso.Prelude.Run.{Returns, returns, pass}
use implso.Kernel.Queue.{has}
use implso.Kernel.Linked
use implso.Kernel.Linked.{Memory, null, put, head_of, tail_of}
use implso.Kernel.Linked.Distinct.{
  one_more, has_ne, has-append, left-AreDistinct, right-AreDistinct, remove-AreDistinct,
  AreDistinct-apart,
}
use implso.Kernel.Linked.Rewrite.{unlink-Segment, unlink-Segment_after}
use implso.Kernel.Linked.Segment.{
  Segment, last, link, IsList, first_or, at_last, Segment-Last, Segment-split, Segment-append,
  ahead_lem, first_lem,
}
use implso.Kernel.Linked.Ends.{head_ne_first, first_nonnull, not_before}

module _ (list : ℕ) (m : Memory) where
  unlink_ends :
      (e : ℕ) (xs ys : List ℕ)
      → IsList m list (xs ++ (e ∷ ys))
      → (((Linked.unlink e m).prev (head_of list) ≡ null)
          × ((Linked.unlink e m).next (tail_of list) ≡ null))
        × ((Linked.unlink e m).next e ≡ first_or ys (tail_of list))
  unfolding Linked.unlink
  unlink_ends e xs ys l =
      let (s, a) = Segment-split xs l.links in
      let n = first_lem ys (ahead_lem a) in
      elim (Segment-Last xs s) [
        | at_last p i _ k ↦
            let ne = has_ne p e (list ∷ xs) i (not_before xs ys e l) in
            (
              (
                ground (
                  arith,
                  k,
                  n,
                  l.head_prev,
                  ne,
                  head_ne_first list ys
                      (ground (arith, l.head_outside, has-append list xs (e ∷ ys))),
                ),
                ground (
                  arith,
                  k,
                  l.tail_next,
                  has_ne p (tail_of list) (list ∷ xs) i,
                  l.tail_outside,
                  has-append (tail_of list) xs (e ∷ ys),
                ),
              ),
              ground (arith, k, n, ne),
            )
      ]

  unlink_links :
      (e : ℕ) (xs ys : List ℕ)
      → IsList m list (xs ++ (e ∷ ys))
      → Segment m (head_of list) xs e
      → Segment m e ys (tail_of list)
      → Segment (Linked.unlink e m) (head_of list) (xs ++ ys) (tail_of list)
  unlink_links e xs [] l s (last f g) = rw (append-nil xs) (
      unlink-Segment xs s f
        (one_more (ground (arith, l.head_outside, has-append list xs (e ∷ [])))
          (left-AreDistinct xs (e ∷ []) l.distinct))
        (ground (arith, l.tail_outside, has-append (tail_of list) xs (e ∷ [])))
        (not_before xs [] e l))
  unlink_links e xs (y ∷ ys) l s (link f g t) =
      let apart : (z : ℕ) → has z (list ∷ xs) ≡ true → has z (y ∷ ys) ≡ false = λ z i. ground (
        arith,
        i,
        l.head_outside,
        has-append list xs (e ∷ (y ∷ ys)),
        AreDistinct-apart xs (e ∷ (y ∷ ys)) l.distinct z,
      ) in
      Segment-append xs
        (unlink-Segment xs s f
          (one_more (ground (arith, l.head_outside, has-append list xs (e ∷ (y ∷ ys))))
            (left-AreDistinct xs (e ∷ (y ∷ ys)) l.distinct))
          (ground (arith, apart y)) (not_before xs (y ∷ ys) e l))
        (unlink-Segment_after xs s f t (not_before xs (y ∷ ys) e l) apart
          (elim (right-AreDistinct xs (e ∷ (y ∷ ys)) l.distinct) [
            | one_more _ (one_more out _) ↦ ground (
              arith,
              out,
              has-append y ys (tail_of list ∷ []),
              l.tail_outside,
              has-append (tail_of list) xs (e ∷ (y ∷ ys)),
            )
          ]))

  pub interior_lem :
      (e : ℕ) (xs ys : List ℕ) → IsList m list (xs ++ (e ∷ ys)) → Linked.is_interior m e ≡ true
  unfolding Linked.is_interior
  interior_lem e xs ys l =
      let (s, a) = Segment-split xs l.links in
      let n = first_lem ys (ahead_lem a) in
      elim (Segment-Last xs s) [
        | at_last p i _ k ↦ ground (
          arith,
          k,
          n,
          l.nonnull,
          l.null_outside,
          has-append null xs (e ∷ ys),
          has_ne p null (list ∷ xs) i,
          first_nonnull list ys,
        )
      ]

  -- list_remove of an element of a list does not panic: it returns the element that followed, or
  -- the tail, and the list holds the same sequence without the element.
  pub remove_lem :
      (e : ℕ) (xs ys : List ℕ)
      → IsList m list (xs ++ (e ∷ ys))
      → Returns
          (λ r. (r.0 ≡ first_or ys (tail_of list)) × IsList r.1 list (xs ++ ys))
          (Linked.remove e m)
  unfolding Linked.remove
  remove_lem e xs ys l =
      let (s, a) = Segment-split xs l.links in
      let ends = unlink_ends e xs ys l in
      pass (interior_lem e xs ys l) (
        returns (
          ends.1,
          record {
            nonnull = l.nonnull;
            head_prev = ends.0.0;
            tail_next = ends.0.1;
            links = unlink_links e xs ys l s (ahead_lem a);
            null_outside =
                ground (arith, l.null_outside, has-append null xs ys, has-append null xs (e ∷ ys));
            head_outside =
                ground (arith, l.head_outside, has-append list xs ys, has-append list xs (e ∷ ys));
            tail_outside = ground (
              arith,
              l.tail_outside,
              has-append (tail_of list) xs ys,
              has-append (tail_of list) xs (e ∷ ys),
            );
            distinct = remove-AreDistinct e xs ys l.distinct;
          },
        ))
