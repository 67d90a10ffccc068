-- ===== src/Kernel/Hash/Leave.antt =====
-- hash_replace and hash_delete of lib/kernel/hash.c on a table.
use implso.Prelude.{
  ℕ, suc, ◌+◌, ◌^◌, ◌<◌, ◌≡◌, ◌∙◌, Bool, true, false, not, ◌&&◌, ◌||◌, Option, none, some, arith,
  ◌==◌,
}
use implso.Prelude.Run
use implso.Prelude.Run.{Run, ok, ◌>>=◌, Returns, returns}
use implso.Kernel.Hash
use implso.Kernel.Hash.{Hash}
use implso.Kernel.Hash.Contents.{
  holds, IsKey, holds-insert_elem, remove_elem-IsPlaced, holds-remove_elem,
}
use implso.Kernel.Hash.Counts.{total-remove_elem, elem_cnt-remove_elem}
use implso.Kernel.Hash.Sums.{total_of}
use implso.Kernel.Hash.Table.{
  IsTable, Found, absent, present, find_lem, rehash_lem, insert_elem-IsTable,
}

module _ (hash : ℕ → ℕ) (less : ℕ → ℕ → Bool) where
  some_left :
      (f : ℕ) (h : Hash)
      → IsTable hash less h
      → holds hash less h f ≡ true
      → (Hash.remove_elem hash less f h).elem_cnt + 1 ≡ h.elem_cnt
  some_left f h t held =
      let n = total-remove_elem hash less f h t.placed held in
      let c : h.elem_cnt ≡ total_of (Hash.remove_elem hash less f h) + 1 =
        omega (arith, n, t.counted) in
      omega (
        arith,
        c,
        elem_cnt-remove_elem hash less f h (total_of (Hash.remove_elem hash less f h)) c t.bounded,
      )

  remove_elem-IsTable :
      (f : ℕ) (h : Hash)
      → IsTable hash less h
      → holds hash less h f ≡ true
      → IsTable hash less (Hash.remove_elem hash less f h)
  remove_elem-IsTable f h t held = record {
    placed = remove_elem-IsPlaced hash less f h t.placed;
    counted =
        omega
          (arith, some_left f h t held, total-remove_elem hash less f h t.placed held, t.counted);
    bounded = omega (arith, some_left f h t held, t.bounded);
    unique = λ a b i j e. ground (
      arith,
      i,
      j,
      e,
      t.unique a b,
      holds-remove_elem hash less f a h,
      holds-remove_elem hash less f b h,
    );
  }

  -- hash_delete: an element that is equal to `e` leaves the table, if there is one.
  pub data Deleted (e : ℕ) (h : Hash) : Option ℕ × Hash → Type 0 where
    missed :
        ((x : ℕ) → holds hash less h x ≡ true → Hash.equal hash less x e ≡ false)
        → Deleted e h (none, h)
    deleted :
        (f : ℕ) (h' : Hash)
        → holds hash less h f ≡ true
        → Hash.equal hash less f e ≡ true
        → IsTable hash less h'
        → h'.elem_cnt + 1 ≡ h.elem_cnt
        → ((x : ℕ) → holds hash less h' x ≡ not (f == x) && holds hash less h x)
        → Deleted e h (some f, h')

  -- hash_replace: the new element enters, and the one that was equal to it, if any, leaves.
  pub data Replaced (new : ℕ) (h : Hash) : Option ℕ × Hash → Type 0 where
    entered :
        (h' : Hash)
        → ((x : ℕ) → holds hash less h x ≡ true → Hash.equal hash less x new ≡ false)
        → IsTable hash less h'
        → ((x : ℕ) → holds hash less h' x ≡ (new == x) || holds hash less h x)
        → Replaced new h (none, h')
    exchanged :
        (old : ℕ) (h' : Hash)
        → holds hash less h old ≡ true
        → Hash.equal hash less old new ≡ true
        → IsTable hash less h'
        → ((x : ℕ) → holds hash less h' x ≡ (new == x) || (not (old == x) && holds hash less h x))
        → Replaced new h (some old, h')

  module _ (key : IsKey hash less) where
    -- Where equal elements have the same hash, hash_delete from a table whose elements stand in
    -- their buckets, no two of them equal and their number counted, does not panic. It returns an
    -- equal element, which then is in the table no more, or none if there is none, and changes
    -- nothing else of the contents.
    pub delete_lem :
        (memory : Bool) (e : ℕ) (h : Hash)
        → IsTable hash less h
        → Returns (Deleted e h) (Hash.delete hash less memory e h)
    unfolding Hash.delete Hash.take
    delete_lem memory e h t = at_found (Hash.find hash less h e) (find_lem hash less key h e)
      where
        at_found :
            (found : Option ℕ)
            → Found hash less h e found
            → Returns (Deleted e h) (Hash.take hash less memory found h >>= λ h'. ok (found, h'))
        at_found none (absent other) = returns (missed other)
        at_found (some f) (present _ i q) =
            Run.bind
              (rehash_lem hash less memory (Hash.remove_elem hash less f h)
                (remove_elem-IsTable f h t i))
              (λ h' k. returns (
                deleted f h' i q k.0 (omega (arith, k.1, some_left f h t i))
                  (λ x. k.2 x ∙ holds-remove_elem hash less f x h)))

    -- Where equal elements have the same hash, hash_replace in a table whose elements stand in
    -- their buckets, no two of them equal and their number counted below 2^32 - 1, does not panic:
    -- the table holds the new element in place of the one that was equal to it, which is returned,
    -- or besides the others, and keeps its invariant.
    pub replace_lem :
        (memory : Bool) (new : ℕ) (h : Hash)
        → IsTable hash less h
        → suc h.elem_cnt < 2 ^ 32
        → Returns (Replaced new h) (Hash.replace hash less memory new h)
    unfolding Hash.replace Hash.leave
    replace_lem memory new h t w =
        at_found (Hash.find hash less h new) (find_lem hash less key h new)
      where
        at_found :
            (found : Option ℕ)
            → Found hash less h new found
            → Returns (Replaced new h) (
                Hash.rehash hash less memory
                  (Hash.insert_elem hash less new (Hash.leave hash less found h))
                >>= λ h'. ok (found, h'))
        at_found none (absent other) =
            Run.bind
              (rehash_lem hash less memory _ (insert_elem-IsTable hash less key new h t w other))
              (λ h' k.
                returns (entered h' other k.0 (λ x. k.2 x ∙ holds-insert_elem hash less new x h)))
        at_found (some old) (present _ i q) =
            let r = Hash.remove_elem hash less old h in
            let other : (x : ℕ) → holds hash less r x ≡ true → Hash.equal hash less x new ≡ false =
              λ x j. ground (
                arith,
                j,
                holds-remove_elem hash less old x h,
                t.unique x old,
                i,
                q,
                key.equal_symm old new,
                key.equal_trans x new old,
              ) in
            Run.bind
              (rehash_lem hash less memory _ (
                insert_elem-IsTable hash less key new r (remove_elem-IsTable old h t i)
                  (omega (arith, some_left old h t i)) other))
              (λ h' k. returns (
                exchanged old h' i q k.0 (λ x. ground (
                  arith,
                  k.2 x,
                  holds-insert_elem hash less new x r,
                  holds-remove_elem hash less old x h,
                ))))
