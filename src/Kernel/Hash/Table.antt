-- ===== src/Kernel/Hash/Table.antt =====
-- The operations of lib/kernel/hash.c on a table: search, insertion, replacement and deletion.
use implso.Prelude.{
  ℕ, suc, ◌+◌, ◌^◌, ◌<◌, ◌≡◌, refl, sym, ◌∙◌, Bool, true, false, ◌||◌, List, [], ◌∷◌, Option, none,
  some, arith, ◌==◌, Bool-cases, Option-cases, inl, inr,
}
use implso.Prelude.Run
use implso.Prelude.Run.{Run, ok, ◌>>=◌, Returns, returns}
use implso.Kernel.Queue.{has}
use implso.Kernel.Hash
use implso.Kernel.Hash.{Hash}
use implso.Kernel.Hash.Contents.{holds, IsKey, IsPlaced, insert_elem-IsPlaced, holds-insert_elem}
use implso.Kernel.Hash.Counts.{total-insert_elem, elem_cnt-insert_elem}
use implso.Kernel.Hash.Move.{SameElements, resize_lem}
use implso.Kernel.Hash.Power.{new_bucket_cnt_lem}
use implso.Kernel.Hash.Sums.{total_of}

module _ (hash : ℕ → ℕ) (less : ℕ → ℕ → Bool) where
  -- The counter is the number of the elements, and no two of them are equal.
  pub record IsTable (h : Hash) : Type 0 where
    pub placed : IsPlaced hash less h
    pub counted : h.elem_cnt ≡ total_of h
    pub bounded : h.elem_cnt < 2 ^ 32
    pub unique :
        (a b : ℕ)
        → holds hash less h a ≡ true
        → holds hash less h b ≡ true
        → Hash.equal hash less a b ≡ true
        → a ≡ b

  -- hash_find: an element that is equal to `e`, or none of the table is.
  pub data Found (h : Hash) (e : ℕ) : Option ℕ → Type 0 where
    absent :
        ((x : ℕ) → holds hash less h x ≡ true → Hash.equal hash less x e ≡ false) → Found h e none
    present :
        (f : ℕ) → holds hash less h f ≡ true → Hash.equal hash less f e ≡ true → Found h e (some f)

  -- The table keeps its elements.
  abbrev pub Keeps : Hash → Hash → Type 0
  Keeps h h' =
      IsTable h'
      × (h'.elem_cnt ≡ h.elem_cnt)
      × ((x : ℕ) → holds hash less h' x ≡ holds hash less h x)

  -- rehash of a table whose elements stand in their buckets, no two of them equal and their number
  -- counted, does not panic, whether or not malloc gives new buckets: it keeps the elements, their
  -- number, and the invariant of the table.
  pub rehash_lem :
      (memory : Bool) (h : Hash) → IsTable h → Returns (Keeps h) (Hash.rehash hash less memory h)
  unfolding Hash.rehash
  rehash_lem memory h t = Run.bind (new_bucket_cnt_lem h t.bounded) (λ cnt p.
      elim (Bool-cases (cnt == h.bucket_cnt)) [
        | inl kept ↦ rw kept (returns (t, refl, λ x. refl))
        | inr changed ↦ elim (Bool-cases memory) [
          | inl given ↦
              rw (changed, given)
                (returns (
                  resized
                    (resize_lem hash less cnt h t.placed p.0 (ground (arith, p.1, t.bounded)))))
          | inr refused ↦ rw (changed, refused) (returns (t, refl, λ x. refl))
        ]
      ])
    where
      resized : {h' : Hash} → SameElements hash less h h' → Keeps h h'
      resized s = (
        record {
          placed = s.placed;
          counted = s.counted ∙ (t.counted ∙ sym s.total);
          bounded = omega (arith, s.counted, t.bounded);
          unique = λ a b i j e. t.unique a b (sym (s.held a) ∙ i) (sym (s.held b) ∙ j) e;
        },
        s.counted,
        s.held,
      )

  find_elem_lem :
      (bucket : List ℕ) (e : ℕ)
      → Hash.find_elem hash less bucket e ≡ none
      → (x : ℕ) → has x bucket ≡ true
      → Hash.equal hash less x e ≡ false
  unfolding Hash.find_elem
  find_elem_lem [] e n x i = absurd (ground (arith, i))
  find_elem_lem (hi ∷ rest) e n x i = elim (Bool-cases (hi == x)) [
    | inl here ↦ let q : hi ≡ x = ground arith in ground (arith, n, q)
    | inr there ↦ find_elem_lem rest e (ground (arith, n)) x (ground (arith, i, there))
  ]

  has-find_elem :
      (bucket : List ℕ) (e f : ℕ)
      → Hash.find_elem hash less bucket e ≡ some f
      → (has f bucket ≡ true) × (Hash.equal hash less f e ≡ true)
  unfolding Hash.find_elem
  has-find_elem [] e f s = absurd (ground (arith, s))
  has-find_elem (hi ∷ rest) e f s = elim (Bool-cases (Hash.equal hash less hi e)) [
    | inl here ↦ let q : hi ≡ f = ground (arith, s, here) in ground (arith, q, here)
    | inr there ↦
        let r = has-find_elem rest e f (ground (arith, s, there)) in ground (arith, r.0, r.1)
  ]

  -- hash_insert: a new element enters if no equal one is there, which is returned otherwise.
  pub data Inserted (new : ℕ) (h : Hash) : Option ℕ × Hash → Type 0 where
    entered :
        (h' : Hash)
        → ((x : ℕ) → holds hash less h x ≡ true → Hash.equal hash less x new ≡ false)
        → IsTable h'
        → (h'.elem_cnt ≡ h.elem_cnt + 1)
        → ((x : ℕ) → holds hash less h' x ≡ (new == x) || holds hash less h x)
        → Inserted new h (none, h')
    was_there :
        (old : ℕ) (h' : Hash)
        → holds hash less h old ≡ true
        → Hash.equal hash less old new ≡ true
        → Keeps h h'
        → Inserted new h (some old, h')

  module _ (key : IsKey hash less) where
    same_bucket :
        (h : Hash) (a b : ℕ)
        → Hash.equal hash less a b ≡ true
        → Hash.find_bucket hash less h a ≡ Hash.find_bucket hash less h b
    unfolding Hash.find_bucket Hash.bucket_idx
    same_bucket h a b e = rw (Hash.find_bucket, Hash.bucket_idx, key.hash_equal a b e)

    -- hash_find gives an equal element, if the table has one.
    pub find_lem : (h : Hash) (e : ℕ) → Found h e (Hash.find hash less h e)
    unfolding Hash.find
    find_lem h e =
        elim (Option-cases (Hash.find_elem hash less (Hash.find_bucket hash less h e) e)) [
          | inl n ↦ rw n (
              absent (λ x i. elim (Bool-cases (Hash.equal hash less x e)) [
                | inl q ↦
                    find_elem_lem (Hash.find_bucket hash less h e) e n x
                      (rw (← same_bucket h x e q) i)
                | inr q ↦ q
              ]))
          | inr (f, s) ↦
              let r = has-find_elem (Hash.find_bucket hash less h e) e f s in
              rw s (present f (rw (same_bucket h f e r.1) r.0) r.1)
        ]

    outside :
        (new : ℕ) (h : Hash)
        → ((x : ℕ) → holds hash less h x ≡ true → Hash.equal hash less x new ≡ false)
        → holds hash less h new ≡ false
    outside new h other = ground (arith, other new, key.equal_self new)

    pub insert_elem-IsTable :
        (new : ℕ) (h : Hash)
        → IsTable h
        → suc h.elem_cnt < 2 ^ 32
        → ((x : ℕ) → holds hash less h x ≡ true → Hash.equal hash less x new ≡ false)
        → IsTable (Hash.insert_elem hash less new h)
    insert_elem-IsTable new h t w other = record {
      placed = insert_elem-IsPlaced hash less new h t.placed (outside new h other);
      counted = omega (
        arith,
        elem_cnt-insert_elem hash less new h w,
        total-insert_elem hash less new h t.placed,
        t.counted,
      );
      bounded = omega (arith, elem_cnt-insert_elem hash less new h w);
      unique = λ a b i j e. ground (
        arith,
        i,
        j,
        e,
        holds-insert_elem hash less new a h,
        holds-insert_elem hash less new b h,
        t.unique a b,
        other a,
        other b,
        key.equal_symm a b,
        key.equal_symm new b,
      );
    }

    -- Where equal elements have the same hash, hash_insert into a table whose elements stand in
    -- their buckets, no two of them equal and their number counted below 2^32 - 1, does not panic.
    -- Without an element equal to the new one it returns none, and the table holds the new one too
    -- and counts it; otherwise it returns that element, and the table holds what it held. This is
    -- so whether or not malloc gives new buckets.
    pub insert-Inserted :
        (memory : Bool) (new : ℕ) (h : Hash)
        → IsTable h
        → suc h.elem_cnt < 2 ^ 32
        → Returns (Inserted new h) (Hash.insert hash less memory new h)
    unfolding Hash.insert Hash.enter
    insert-Inserted memory new h t w = at_found (Hash.find hash less h new) (find_lem h new)
      where
        at_found :
            (found : Option ℕ)
            → Found h new found
            → Returns (Inserted new h) (
                Hash.rehash hash less memory (Hash.enter hash less new found h) >>= λ h'.
                ok (found, h'))
        at_found none (absent other) =
            Run.bind
              (rehash_lem memory (Hash.insert_elem hash less new h)
                (insert_elem-IsTable new h t w other))
              (λ h' k. returns (
                entered h' other k.0 (k.1 ∙ elem_cnt-insert_elem hash less new h w)
                  (λ x. k.2 x ∙ holds-insert_elem hash less new x h)))
        at_found (some old) (present _ i e) =
            Run.bind (rehash_lem memory h t) (λ h' k. returns (was_there old h' i e k))
