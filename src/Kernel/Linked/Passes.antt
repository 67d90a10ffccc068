-- ===== src/Kernel/Linked/Passes.antt =====
-- The passes over a list in lib/kernel/list.c, and its two ends as those of a queue.
use implso.Prelude.{
  ℕ, zero, suc, ◌+◌, ◌<◌, ◌≡◌, refl, sym, ◌≢◌, Bool, false, not, List, [], ◌∷◌, ◌++◌, arith, ◌==◌,
  Bool-cases, ==_self, inl, inr, length,
}
use mathlib.Core.List.{append-nil, append_assoc}
use implso.Prelude.Run
use implso.Prelude.Run.{Run, ok, ◌>>=◌, ◌>>◌, assert, Returns, returns, pass}
use implso.Kernel.Queue
use implso.Kernel.Queue.{has}
use implso.Kernel.Linked
use implso.Kernel.Linked.{Memory, null, head_of, tail_of}
use implso.Kernel.Linked.Loops.{size_loop, size, place_loop, insert_ordered}
use implso.Kernel.Linked.Distinct.{has-append}
use implso.Kernel.Linked.Ends.{is_empty_lem}
use implso.Kernel.Linked.Insert.{insert-IsList}
use implso.Kernel.Linked.Remove.{remove_lem, interior_lem}
use implso.Kernel.Linked.Segment.{IsList, first_or, Segment-split, first_lem, last_lem, ahead_lem}

-- An element that may enter the list.
pub record IsNew (list : ℕ) (xs : List ℕ) (e : ℕ) : Type 0 where
  pub nonnull : e ≢ null
  pub not_head : e ≢ head_of list
  pub not_tail : e ≢ tail_of list
  pub outside : has e xs ≡ false

-- The place of a new element in a list `whole`, which gives the list `result`.
data Place (list e : ℕ) (whole result : List ℕ) : Run ℕ → Type 0 where
  at_place :
      (xs ys : List ℕ)
      → whole ≡ xs ++ ys
      → result ≡ xs ++ (e ∷ ys)
      → Place list e whole result (ok (first_or ys (tail_of list)))

module _ (list : ℕ) (m : Memory) where
  begin_lem :
      (xs : List ℕ) → IsList m list xs → Linked.begin list m ≡ ok (first_or xs (tail_of list))
  unfolding Linked.begin
  begin_lem xs l = ground (arith, l.nonnull, first_lem xs l.links)

  end_lem : (xs : List ℕ) → IsList m list xs → Linked.end list ≡ ok (tail_of list)
  unfolding Linked.end
  end_lem xs l = ground (arith, l.nonnull)

  -- list_push_front puts a new element before the others.
  pub push_front_lem :
      (e : ℕ) (xs : List ℕ)
      → IsList m list xs
      → IsNew list xs e
      → Returns (λ m'. IsList m' list (e ∷ xs)) (Linked.push_front list e m)
  unfolding Linked.push_front
  push_front_lem e xs l n =
      rw (begin_lem xs l) (insert-IsList list m e [] xs l n.nonnull n.not_head n.not_tail n.outside)

  -- list_push_back puts a new element behind the others.
  pub push_back_lem :
      (e : ℕ) (xs : List ℕ)
      → IsList m list xs
      → IsNew list xs e
      → Returns (λ m'. IsList m' list (xs ++ (e ∷ []))) (Linked.push_back list e m)
  unfolding Linked.push_back
  push_back_lem e xs l n = rw (end_lem xs l) (
      insert-IsList list m e xs [] (rw (append-nil xs) l) n.nonnull n.not_head n.not_tail
        (ground (arith, n.outside, has-append e xs [])))

  front_lem : (x : ℕ) (xs : List ℕ) → IsList m list (x ∷ xs) → Linked.front list m ≡ ok x
  unfolding Linked.front
  front_lem x xs l =
      ground (arith, is_empty_lem list (x ∷ xs) m l, l.tail_outside, first_lem (x ∷ xs) l.links)

  -- list_pop_front takes the first element.
  pub pop_front_lem :
      (x : ℕ) (xs : List ℕ)
      → IsList m list (x ∷ xs)
      → Returns (λ r. (r.0 ≡ x) × IsList r.1 list xs) (Linked.pop_front list m)
  unfolding Linked.pop_front
  pop_front_lem x xs l =
      rw (front_lem x xs l) (Run.bind (remove_lem list m x [] xs l) (λ r p. returns (refl, p.1)))

  prev_lem : (x : ℕ) (xs : List ℕ) → IsList m list (xs ++ (x ∷ [])) → m.prev (tail_of list) ≡ x
  prev_lem x xs l = last_lem (ahead_lem (Segment-split xs l.links).1)

  back_lem : (x : ℕ) (xs : List ℕ) → IsList m list (xs ++ (x ∷ [])) → Linked.back list m ≡ ok x
  unfolding Linked.back
  back_lem x [] l = ground (arith, is_empty_lem list (x ∷ []) m l, l.tail_outside, prev_lem x [] l)
  back_lem x (y ∷ xs) l =
      ground
        (arith, is_empty_lem list (y ∷ (xs ++ (x ∷ []))) m l, l.tail_outside, prev_lem x (y ∷ xs) l)

  -- list_pop_back takes the last element.
  pub pop_back_lem :
      (x : ℕ) (xs : List ℕ)
      → IsList m list (xs ++ (x ∷ []))
      → Returns (λ r. (r.0 ≡ x) × IsList r.1 list xs) (Linked.pop_back list m)
  unfolding Linked.pop_back
  pop_back_lem x xs l =
      rw (back_lem x xs l) (
        Run.bind (remove_lem list m x xs [] l)
          (λ r p. returns (refl, rw (sym (append-nil xs)) p.1)))

  next_lem :
      (xs ys : List ℕ) (y : ℕ)
      → IsList m list (xs ++ (y ∷ ys))
      → Linked.next_of y m ≡ ok (first_or ys (tail_of list))
  unfolding Linked.next_of
  next_lem xs ys y l =
      ground (
        arith,
        interior_lem list m y xs ys l,
        first_lem ys (ahead_lem (Segment-split xs l.links).1),
      )

  size_loop_lem :
      (xs ys : List ℕ) (fuel cnt : ℕ)
      → IsList m list (xs ++ ys)
      → length ys < fuel
      → size_loop fuel (first_or ys (tail_of list)) (tail_of list) m cnt ≡ ok (cnt + length ys)
  unfolding size_loop
  size_loop_lem xs [] zero cnt l h = elim h [ ]
  size_loop_lem xs (y ∷ ys) zero cnt l h = elim h [ ]
  size_loop_lem xs [] (suc fuel) cnt l h = ground arith
  size_loop_lem xs (y ∷ ys) (suc fuel) cnt l h =
      let l' : IsList m list (xs ++ (y ∷ []) ++ ys) = rw (append_assoc xs (y ∷ []) ys) l in
      ground (
        arith,
        size_loop_lem (xs ++ (y ∷ [])) ys fuel (cnt + 1) l' (omega arith),
        next_lem xs ys y l,
        l.tail_outside,
        has-append (tail_of list) xs (y ∷ ys),
      )

  -- list_size of a list ends, with more fuel than there are elements, and gives their number.
  pub size_lem :
      (fuel : ℕ) (xs : List ℕ)
      → IsList m list xs
      → length xs < fuel
      → size fuel list m ≡ ok (length xs)
  unfolding size
  size_lem fuel xs l h =
      rw (begin_lem xs l, end_lem xs l) (ground (arith, size_loop_lem [] xs fuel 0 l h))

  place_loop_lem :
      (less : ℕ → ℕ → Bool) (e : ℕ) (xs ys : List ℕ) (fuel : ℕ)
      → IsList m list (xs ++ ys)
      → length ys < fuel
      → Place list e
          (xs ++ ys)
          (xs ++ Queue.insert_ordered less e ys)
          (place_loop less fuel e (first_or ys (tail_of list)) (tail_of list) m)
  unfolding place_loop
  place_loop_lem less e xs [] zero l h = elim h [ ]
  place_loop_lem less e xs (y ∷ ys) zero l h = elim h [ ]
  place_loop_lem less e xs [] (suc fuel) l h =
      rw (place_loop, ==_self (tail_of list)) (at_place xs [] refl refl)
  place_loop_lem less e xs (y ∷ ys) (suc fuel) l h =
      let ne : (y == tail_of list) ≡ false =
        ground (arith, l.tail_outside, has-append (tail_of list) xs (y ∷ ys)) in
      elim (Bool-cases (less e y)) [
        | inl first ↦ rw (place_loop, ne, first) (at_place xs (y ∷ ys) refl refl)
        | inr later ↦
            let l' : IsList m list (xs ++ (y ∷ []) ++ ys) = rw (append_assoc xs (y ∷ []) ys) l in
            rw
              (
                place_loop,
                ne,
                later,
                next_lem xs ys y l,
                ← append_assoc xs (y ∷ []) ys,
                ← append_assoc xs (y ∷ []) (Queue.insert_ordered less e ys),
              )
              (place_loop_lem less e (xs ++ (y ∷ [])) ys fuel l' (omega arith))
      ]

  -- list_insert_ordered of an element that is not null and not in the list does not panic, with
  -- more fuel than there are elements: the list then holds the sequence that the insertion on
  -- sequences gives, which puts the element before the first one that is greater.
  pub insert_ordered_lem :
      (less : ℕ → ℕ → Bool) (fuel e : ℕ) (xs : List ℕ)
      → IsList m list xs
      → IsNew list xs e
      → length xs < fuel
      → Returns
          (λ m'. IsList m' list (Queue.insert_ordered less e xs))
          (insert_ordered less fuel list e m)
  unfolding insert_ordered
  insert_ordered_lem less fuel e xs l n h =
      pass {b = not (list == null)} (ground (arith, l.nonnull)) (
        pass {b = not (e == null)} (ground (arith, n.nonnull))
          (rw (begin_lem xs l, end_lem xs l) (placed (place_loop_lem less e [] xs fuel l h))))
    where
      placed :
          {result : List ℕ} {r : Run ℕ}
          → Place list e xs result r
          → Returns (λ m'. IsList m' list result) (r >>= λ p. Linked.insert p e m)
      placed (at_place as' bs f g) = rw g (
          insert-IsList list m e as' bs (rw (sym f) l) n.nonnull n.not_head n.not_tail
            (rw (sym f) n.outside))
