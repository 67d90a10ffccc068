-- ===== src/Tests/Links.antt =====
-- lib/kernel/list.c on a memory with a list of four elements.
use implso.Prelude.{ℕ, zero, suc, ◌≡◌, refl, List, [], ◌∷◌, arith, ◌==◌, ltb, if◌then◌else◌}
use implso.Prelude.Run.{Run, ok, ◌>>=◌, Returns}
use implso.Kernel.Linked
use implso.Kernel.Linked.{Memory, tail_of}
use implso.Kernel.Linked.Loops
use implso.Kernel.Linked.Sort
use implso.Kernel.Queue
use implso.Kernel.Linked.Distinct.{none_left, one_more}
use implso.Kernel.Linked.Insert.{insert-IsList}
use implso.Kernel.Linked.Passes.{IsNew, insert_ordered_lem}
use implso.Kernel.Linked.Remove.{remove_lem}
use implso.Kernel.Linked.Segment.{IsList, link, last}

abbrev blank : Memory
blank = record { next = λ e. 0; prev = λ e. 0 }

abbrev filled : Run Memory
filled = do
  m1 ← Linked.init 100 blank
  m2 ← Linked.push_back 100 40 m1
  m3 ← Linked.push_front 100 30 m2
  m4 ← Linked.push_back 100 10 m3
  Linked.push_back 100 20 m4

abbrev elements_loop : (fuel e tail : ℕ) → Memory → List ℕ
elements_loop zero e tail m = []
elements_loop (suc fuel) e tail m =
    if e == tail then [] else e ∷ elements_loop fuel (m.next e) tail m

abbrev elements : Memory → Run (List ℕ)
elements m = ok (elements_loop 9 (m.next 100) (tail_of 100) m)

filled_test : (filled >>= elements) ≡ ok (30 ∷ 40 ∷ 10 ∷ 20 ∷ [])
unfolding Linked.init Linked.push_back Linked.push_front Linked.begin Linked.end Linked.insert
    Linked.link Linked.is_interior Linked.is_tail
filled_test = refl

sort_test : (filled >>= λ m. Sort.sort ltb 9 100 m >>= elements) ≡ ok (10 ∷ 20 ∷ 30 ∷ 40 ∷ [])
unfolding Linked.init Linked.push_back Linked.push_front Linked.begin Linked.end Linked.insert
    Linked.link Linked.is_interior Linked.is_tail Linked.is_head Linked.splice Linked.cut
    Linked.join Linked.prev_of Linked.next_of Sort.sort Sort.sort_loop Sort.pass_loop
    Sort.inplace_merge Sort.merge_loop Sort.find_end_of_run Sort.run_loop Sort.is_sorted
    Sort.is_sorted_loop
sort_test = refl

reverse_test : (filled >>= λ m. Loops.reverse 9 100 m >>= elements) ≡ ok (20 ∷ 10 ∷ 40 ∷ 30 ∷ [])
unfolding Linked.init Linked.push_back Linked.push_front Linked.begin Linked.end Linked.insert
    Linked.link Linked.is_interior Linked.is_tail Linked.is_empty Loops.reverse Loops.reverse_loop
    Loops.swap_links Loops.swap_ends Loops.swap_inner
reverse_test = refl

-- A list with the elements 10 and 20.
abbrev two : Memory
two = record {
  next = λ e. if e == 100 then 10 else if e == 10 then 20 else if e == 20 then 108 else 0;
  prev = λ e. if e == 108 then 20 else if e == 20 then 10 else if e == 10 then 100 else 0;
}

two-IsList : IsList two 100 (10 ∷ (20 ∷ []))
two-IsList = record {
  nonnull = λ e. omega (arith, e);
  head_prev = refl;
  tail_next = refl;
  links =
      link {a = 100} {x = 10} refl refl
        (link {x = 20} refl refl (last {a = 20} {b = 108} refl refl));
  null_outside = refl;
  head_outside = refl;
  tail_outside = refl;
  distinct = one_more refl (one_more refl none_left);
}

fifteen-IsNew : IsNew 100 (10 ∷ (20 ∷ [])) 15
fifteen-IsNew = record {
  nonnull = λ e. omega (arith, e);
  not_head = λ e. omega (arith, e);
  not_tail = λ e. omega (arith, e);
  outside = refl;
}

insert-IsList_example :
    Returns (λ m'. IsList m' 100 (10 ∷ (15 ∷ (20 ∷ [])))) (Linked.insert 20 15 two)
insert-IsList_example =
    insert-IsList 100 two 15 (10 ∷ []) (20 ∷ []) two-IsList fifteen-IsNew.nonnull
      fifteen-IsNew.not_head fifteen-IsNew.not_tail refl

remove_lem_example : Returns (λ r. (r.0 ≡ 20) × IsList r.1 100 (20 ∷ [])) (Linked.remove 10 two)
remove_lem_example = remove_lem 100 two 10 [] (20 ∷ []) two-IsList

insert_ordered_lem_example :
    Returns
      (λ m'. IsList m' 100 (Queue.insert_ordered ltb 15 (10 ∷ (20 ∷ []))))
      (Loops.insert_ordered ltb 5 100 15 two)
insert_ordered_lem_example =
    insert_ordered_lem 100 two ltb 5 15 (10 ∷ (20 ∷ [])) two-IsList fifteen-IsNew (omega arith)
