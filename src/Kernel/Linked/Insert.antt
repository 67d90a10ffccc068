-- ===== src/Kernel/Linked/Insert.antt =====
-- list_insert of lib/kernel/list.c on whole lists.
use implso.Prelude.{ℕ, ◌≡◌, sym, ◌≢◌, true, false, ◌||◌, List, [], ◌∷◌, ◌++◌, arith}
use mathlib.Core.List.{append_assoc}
use implso.Prelude.Run.{Returns, returns, pass}
use implso.Kernel.Queue.{has}
use implso.Kernel.Linked
use implso.Kernel.Linked.{Memory, null, put, head_of, tail_of}
use implso.Kernel.Linked.Distinct.{
  one_more, has_ne, has-append, left-AreDistinct, insert-AreDistinct,
}
use implso.Kernel.Linked.Rewrite.{link-Segment, link-Segment_after}
use implso.Kernel.Linked.Segment.{
  Segment, IsList, first_or, at_last, Segment-Last, Segment-split, Segment-append, ahead_lem,
}
use implso.Kernel.Linked.Ends.{apart_lem, head_ne_first}

module _ (list : ℕ) (m : Memory) where
  before_lem :
      (xs ys : List ℕ)
      → IsList m list (xs ++ ys)
      → (Linked.is_interior m (first_or ys (tail_of list))
          || Linked.is_tail m (first_or ys (tail_of list)))
        ≡ true
  unfolding Linked.is_interior Linked.is_tail
  before_lem xs [] l = elim (Segment-Last xs (Segment-split xs l.links).0) [
    | at_last p h _ k ↦
        ground (
          arith,
          h,
          k,
          l.nonnull,
          l.null_outside,
          has-append null xs [],
          has_ne p null (list ∷ xs) h,
        )
  ]
  before_lem xs (y ∷ ys) l = elim (Segment-Last xs (Segment-split xs l.links).0) [
    | at_last p h _ k ↦ ground (
      arith,
      h,
      k,
      l.nonnull,
      l.null_outside,
      has-append null xs (y ∷ ys),
      has_ne p null (list ∷ xs) h,
    )
  ]

  insert_ends :
      (e : ℕ) (xs ys : List ℕ)
      → IsList m list (xs ++ ys)
      → e ≢ head_of list
      → e ≢ tail_of list
      → ((Linked.link (first_or ys (tail_of list)) e m).prev (head_of list) ≡ null)
        × ((Linked.link (first_or ys (tail_of list)) e m).next (tail_of list) ≡ null)
  unfolding Linked.link
  insert_ends e xs ys l h t = elim (Segment-Last xs (Segment-split xs l.links).0) [
    | at_last p i _ k ↦ (
      ground (
        arith,
        h,
        l.head_prev,
        head_ne_first list ys (ground (arith, l.head_outside, has-append list xs ys)),
      ),
      ground (
        arith,
        t,
        k,
        l.tail_next,
        has_ne p (tail_of list) (list ∷ xs) i,
        l.tail_outside,
        has-append (tail_of list) xs ys,
      ),
    )
  ]

  insert_links :
      (e : ℕ) (xs ys : List ℕ)
      → IsList m list (xs ++ ys)
      → e ≢ head_of list
      → e ≢ tail_of list
      → has e (xs ++ ys) ≡ false
      → Segment
          (Linked.link (first_or ys (tail_of list)) e m)
          (head_of list)
          (xs ++ (e ∷ ys))
          (tail_of list)
  insert_links e xs [] l h t out =
      link-Segment e xs (Segment-split xs l.links).0
        (one_more (ground (arith, l.head_outside, has-append list xs []))
          (left-AreDistinct xs [] l.distinct))
        (ground (arith, l.tail_outside, has-append (tail_of list) xs []))
        (ground (arith, h, out, has-append e xs [])) t
  insert_links e xs (y ∷ ys) l h t out =
      let (s, a) = Segment-split xs l.links in
      let (before, apart, after) = apart_lem xs ys y l in
      rw (sym (append_assoc xs (e ∷ []) (y ∷ ys))) (
        Segment-append (xs ++ (e ∷ []))
          (link-Segment e xs s
            (one_more (ground (arith, l.head_outside, has-append list xs (y ∷ ys)))
              (left-AreDistinct xs (y ∷ ys) l.distinct))
            before (ground (arith, h, out, has-append e xs (y ∷ ys)))
            (ground (arith, out, has-append e xs (y ∷ ys))))
          (link-Segment_after e xs s (ahead_lem a) apart after
            (ground (arith, out, has-append e xs (y ∷ ys)))
            (ground
              (arith, t, out, has-append e xs (y ∷ ys), has-append e ys (tail_of list ∷ [])))))

  -- list_insert of an element that is not null and not in the list, before an interior element or
  -- the tail, does not panic: the list holds the same sequence with the element in that place, with
  -- all links of both directions.
  pub insert-IsList :
      (e : ℕ) (xs ys : List ℕ)
      → IsList m list (xs ++ ys)
      → e ≢ null
      → e ≢ head_of list
      → e ≢ tail_of list
      → has e (xs ++ ys) ≡ false
      → Returns
          (λ m'. IsList m' list (xs ++ (e ∷ ys)))
          (Linked.insert (first_or ys (tail_of list)) e m)
  unfolding Linked.insert
  insert-IsList e xs ys l n h t out = pass (before_lem xs ys l) (
      pass (ground (arith, n)) (
        returns record {
          nonnull = l.nonnull;
          head_prev = (insert_ends e xs ys l h t).0;
          tail_next = (insert_ends e xs ys l h t).1;
          links = insert_links e xs ys l h t out;
          null_outside =
              ground (arith, n, l.null_outside, has-append null xs ys, has-append null xs (e ∷ ys));
          head_outside =
              ground (arith, h, l.head_outside, has-append list xs ys, has-append list xs (e ∷ ys));
          tail_outside = ground (
            arith,
            t,
            l.tail_outside,
            has-append (tail_of list) xs ys,
            has-append (tail_of list) xs (e ∷ ys),
          );
          distinct = insert-AreDistinct e xs ys l.distinct out;
        }))
