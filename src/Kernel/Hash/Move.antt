-- ===== src/Kernel/Hash/Move.antt =====
-- The loops of rehash in lib/kernel/hash.c, which move the elements into new buckets.
use implso.Prelude.{
  ℕ, zero, suc, ◌+◌, ◌^◌, ◌≤◌, ◌<◌, ◌≡◌, refl, Bool, true, false, ◌||◌, List, [], ◌∷◌, arith, ◌==◌,
  Bool-cases, inl, inr, length, ◌∙◌,
}
use implso.Kernel.Queue.{has}
use implso.Kernel.Linked.Distinct.{AreDistinct, none_left, one_more}
use implso.Kernel.Hash
use implso.Kernel.Hash.{Hash}
use implso.Kernel.Hash.Power.{IsPower}
use implso.Kernel.Hash.Sums.{total, total_of, total_of-set_bucket, total_empty}
use implso.Kernel.Hash.Contents.{holds, IsPlaced, holds-place, place-IsPlaced, bucket_idx_lt}

-- `x` is in one of the buckets from `i` on, `rest` in number.
abbrev pub among : (ℕ → List ℕ) → (rest i x : ℕ) → Bool
among b zero i x = false
among b (suc rest) i x = has x (b i) || among b rest (i + 1) x

pub data Somewhere (b : ℕ → List ℕ) (rest i x : ℕ) : Type 0 where
  at_bucket : (j : ℕ) → i ≤ j → j < i + rest → has x (b j) ≡ true → Somewhere b rest i x

pub among_bucket : (b : ℕ → List ℕ) (rest i x : ℕ) → among b rest i x ≡ true → Somewhere b rest i x
among_bucket b zero i x e = absurd (ground (arith, e))
among_bucket b (suc rest) i x e = elim (Bool-cases (has x (b i))) [
  | inl here ↦ at_bucket i (omega arith) (omega arith) here
  | inr there ↦ elim (among_bucket b rest (i + 1) x (ground (arith, e, there))) [
    | at_bucket j le lt f ↦ at_bucket j (omega arith) (omega arith) f
  ]
]

pub bucket_among :
    (b : ℕ → List ℕ) (rest i j x : ℕ)
    → i ≤ j
    → j < i + rest
    → has x (b j) ≡ true
    → among b rest i x ≡ true
bucket_among b zero i j x le lt e = absurd (omega arith)
bucket_among b (suc rest) i j x le lt e = elim (Bool-cases (i == j)) [
  | inl here ↦ let q : i ≡ j = ground arith in ground (arith, q, e)
  | inr there ↦ ground (arith, bucket_among b rest (i + 1) j x (ground arith) (omega arith) e)
]

module _ (hash : ℕ → ℕ) (less : ℕ → ℕ → Bool) where
  holds-move_bucket :
      (es : List ℕ) (x : ℕ) (h : Hash)
      → holds hash less (Hash.move_bucket hash less es h) x ≡ has x es || holds hash less h x
  unfolding Hash.move_bucket
  holds-move_bucket [] x h = refl
  holds-move_bucket (e ∷ es) x h =
      ground (arith, holds-move_bucket es x (Hash.place hash less e h), holds-place hash less e x h)

  holds-move_loop :
      (old : ℕ → List ℕ) (rest i x : ℕ) (h : Hash)
      → holds hash less (Hash.move_loop hash less old rest i h) x
        ≡ among old rest i x || holds hash less h x
  unfolding Hash.move_loop
  holds-move_loop old zero i x h = refl
  holds-move_loop old (suc rest) i x h = ground (
    arith,
    holds-move_loop old rest (i + 1) x (Hash.move_bucket hash less (old i) h),
    holds-move_bucket (old i) x h,
  )

  total-place :
      (e : ℕ) (h : Hash)
      → IsPlaced hash less h
      → total_of (Hash.place hash less e h) ≡ total_of h + 1
  unfolding Hash.place Hash.find_bucket
  total-place e h p =
      let index = Hash.bucket_idx hash less h e in
      omega
        (arith, total_of-set_bucket h index (e ∷ h.buckets index) (bucket_idx_lt hash less h e p))

  -- A table that the loops have built so far.
  pub record Moved (h h' : Hash) (cnt : ℕ) : Type 0 where
    pub placed : IsPlaced hash less h'
    pub grown : total_of h' ≡ total_of h + cnt
    pub counted : h'.elem_cnt ≡ h.elem_cnt
    pub buckets_cnt : h'.bucket_cnt ≡ h.bucket_cnt

  move_bucket_lem :
      (es : List ℕ) (h : Hash)
      → IsPlaced hash less h
      → AreDistinct es
      → ((x : ℕ) → has x es ≡ true → holds hash less h x ≡ false)
      → Moved h (Hash.move_bucket hash less es h) (length es)
  unfolding Hash.move_bucket Hash.place
  move_bucket_lem [] h p d new = record {
    placed = p;
    grown = omega arith;
    counted = refl;
    buckets_cnt = refl;
  }
  move_bucket_lem (e ∷ es) h p (one_more out d) new =
      let r =
        move_bucket_lem es (Hash.place hash less e h)
          (place-IsPlaced hash less e h p (new e (ground arith))) d
          (λ x i. ground (arith, i, out, holds-place hash less e x h, new x)) in
      record {
        placed = r.placed;
        grown = omega (arith, r.grown, total-place e h p);
        counted = r.counted;
        buckets_cnt = r.buckets_cnt;
      }

  move_loop_lem :
      (old : ℕ → List ℕ) (rest i : ℕ) (h : Hash)
      → IsPlaced hash less h
      → ((j : ℕ) → i ≤ j → j < i + rest → AreDistinct (old j))
      → ((j k x : ℕ) → i ≤ j → j < k → k < i + rest → has x (old j) ≡ true → has x (old k) ≡ false)
      → ((x : ℕ) → among old rest i x ≡ true → holds hash less h x ≡ false)
      → Moved h (Hash.move_loop hash less old rest i h) (total old rest i)
  unfolding Hash.move_loop
  move_loop_lem old zero i h p d apart new = record {
    placed = p;
    grown = omega arith;
    counted = refl;
    buckets_cnt = refl;
  }
  move_loop_lem old (suc rest) i h p d apart new =
      let s =
        move_bucket_lem (old i) h p (d i (omega arith) (omega arith))
          (λ x e. new x (ground (arith, e))) in
      let r =
        move_loop_lem old rest (i + 1) (Hash.move_bucket hash less (old i) h) s.placed
          (λ j a b. d j (omega arith) (omega arith))
          (λ j k x a b c. apart j k x (omega arith) b (omega arith))
          (λ x e. elim (among_bucket old rest (i + 1) x e) [
            | at_bucket j le lt f ↦ ground (
              arith,
              e,
              f,
              holds-move_bucket (old i) x h,
              new x,
              apart i j x (omega arith) (omega arith) (omega arith),
            )
          ]) in
      record {
        placed = r.placed;
        grown = omega (arith, r.grown, s.grown);
        counted = r.counted ∙ s.counted;
        buckets_cnt = r.buckets_cnt ∙ s.buckets_cnt;
      }

  pub holds-among :
      (h : Hash) (x : ℕ)
      → IsPlaced hash less h
      → holds hash less h x ≡ among h.buckets h.bucket_cnt 0 x
  unfolding Hash.find_bucket
  holds-among h x p = elim (Bool-cases (among h.buckets h.bucket_cnt 0 x)) [
    | inl e ↦ elim (among_bucket h.buckets h.bucket_cnt 0 x e) [
      | at_bucket j _ lt f ↦ ground (arith, e, f, p.placed j x (omega arith) f)
    ]
    | inr e ↦
        let i = Hash.bucket_idx hash less h x in
        let lt : i < 0 + h.bucket_cnt = omega (arith, bucket_idx_lt hash less h x p) in
        ground (arith, e, bucket_among h.buckets h.bucket_cnt 0 i x (omega arith) lt)
  ]

  apart_lem :
      (h : Hash) (j k x : ℕ)
      → IsPlaced hash less h
      → j < k
      → k < h.bucket_cnt
      → has x (h.buckets j) ≡ true
      → has x (h.buckets k) ≡ false
  apart_lem h j k x p lt lt' e = elim (Bool-cases (has x (h.buckets k))) [
    | inl f ↦ absurd (ground (arith, p.placed j x (omega arith) e, p.placed k x lt' f))
    | inr f ↦ f
  ]

  -- A table with the same elements.
  pub record SameElements (h h' : Hash) : Type 0 where
    pub placed : IsPlaced hash less h'
    pub total : total_of h' ≡ total_of h
    pub counted : h'.elem_cnt ≡ h.elem_cnt
    pub held : (x : ℕ) → holds hash less h' x ≡ holds hash less h x

  pub resize_lem :
      (cnt : ℕ) (h : Hash)
      → IsPlaced hash less h
      → IsPower cnt
      → cnt < 2 ^ 32
      → SameElements h (Hash.resize hash less cnt h)
  unfolding Hash.resize Hash.find_bucket
  resize_lem cnt h p power w =
      let blank : Hash = record h { bucket_cnt = cnt; buckets = λ i. [] } in
      let r =
        move_loop_lem h.buckets h.bucket_cnt 0 blank
          (record {
            power = power;
            width = w;
            placed = λ i e lt f. absurd (ground (arith, f));
            distinct = λ i lt. none_left;
          })
          (λ j a b. p.distinct j (omega arith)) (λ j k x a b c. apart_lem h j k x p b (omega arith))
          (λ x e. refl) in
      record {
        placed = r.placed;
        total = omega (arith, r.grown, total_empty cnt 0);
        counted = r.counted;
        held = λ x.
            ground (arith, holds-move_loop h.buckets h.bucket_cnt 0 x blank, holds-among h x p);
      }
