-- ===== src/Kernel/Hash/Contents.antt =====
-- The contents of a table of lib/kernel/hash.c, and what its operations do to them.
use implso.Prelude.{
  ℕ, ◌^◌, ◌<◌, ◌≡◌, Bool, true, false, not, ◌&&◌, ◌||◌, List, ◌∷◌, arith, ◌==◌, Bool-cases, inl,
  inr,
}
use implso.Kernel.Queue
use implso.Kernel.Queue.{has, has-remove}
use implso.Kernel.Linked.Distinct.{AreDistinct, one_more, erase-AreDistinct}
use implso.Kernel.Hash
use implso.Kernel.Hash.{Hash}
use implso.Kernel.Hash.Power.{IsPower, index_lt}

-- What a client of the table owes: an order whose incomparable elements are alike, and a hash that
-- alike elements share.
pub record IsKey (hash : ℕ → ℕ) (less : ℕ → ℕ → Bool) : Type 0 where
  pub equal_self : (a : ℕ) → Hash.equal hash less a a ≡ true
  pub equal_symm : (a b : ℕ) → Hash.equal hash less a b ≡ Hash.equal hash less b a
  pub equal_trans :
      (a b c : ℕ)
      → Hash.equal hash less a b ≡ true
      → Hash.equal hash less b c ≡ true
      → Hash.equal hash less a c ≡ true
  pub hash_equal : (a b : ℕ) → Hash.equal hash less a b ≡ true → hash a ≡ hash b

module _ (hash : ℕ → ℕ) (less : ℕ → ℕ → Bool) where
  -- `e` is in the table.
  abbrev pub holds : Hash → ℕ → Bool
  holds h e = has e (Hash.find_bucket hash less h e)

  -- The buckets are a power of 2 in number, and each element stands once, in its bucket.
  pub record IsPlaced (h : Hash) : Type 0 where
    pub power : IsPower h.bucket_cnt
    pub width : h.bucket_cnt < 2 ^ 32
    pub placed :
        (i e : ℕ)
        → i < h.bucket_cnt
        → has e (h.buckets i) ≡ true
        → Hash.bucket_idx hash less h e ≡ i
    pub distinct : (i : ℕ) → i < h.bucket_cnt → AreDistinct (h.buckets i)

  pub bucket_idx_lt : (h : Hash) (e : ℕ) → IsPlaced h → Hash.bucket_idx hash less h e < h.bucket_cnt
  unfolding Hash.bucket_idx
  bucket_idx_lt h e p = index_lt (hash e) h.bucket_cnt p.power p.width

  pub holds-place :
      (e x : ℕ) (h : Hash) → holds (Hash.place hash less e h) x ≡ (e == x) || holds h x
  unfolding Hash.place Hash.find_bucket Hash.bucket_idx
  holds-place e x h = elim (Bool-cases (e == x)) [
    | inl here ↦ let q : e ≡ x = ground arith in ground (arith, q)
    | inr there ↦ ground (arith, there)
  ]

  set_bucket-IsPlaced :
      (index : ℕ) (bucket : List ℕ) (h : Hash)
      → IsPlaced h
      → ((y : ℕ) → has y bucket ≡ true → Hash.bucket_idx hash less h y ≡ index)
      → AreDistinct bucket
      → IsPlaced (Hash.set_bucket index bucket h)
  unfolding Hash.bucket_idx
  set_bucket-IsPlaced index bucket h p inside d = record {
    power = p.power;
    width = p.width;
    placed = λ i x lt e. ground (arith, e, p.placed i x lt, inside x);
    distinct = λ i lt. elim (Bool-cases (i == index)) [
      | inl here ↦ rw here d
      | inr there ↦ rw there (p.distinct i lt)
    ];
  }

  count-IsPlaced : (c : ℕ) (h : Hash) → IsPlaced h → IsPlaced (record h { elem_cnt = c })
  unfolding Hash.bucket_idx
  count-IsPlaced c h p = record {
    power = p.power;
    width = p.width;
    placed = p.placed;
    distinct = p.distinct;
  }

  pub place-IsPlaced :
      (e : ℕ) (h : Hash) → IsPlaced h → holds h e ≡ false → IsPlaced (Hash.place hash less e h)
  unfolding Hash.place Hash.find_bucket
  place-IsPlaced e h p out =
      let index = Hash.bucket_idx hash less h e in
      set_bucket-IsPlaced index (e ∷ h.buckets index) h p
        (λ y i. ground (arith, i, p.placed index y (bucket_idx_lt h e p)))
        (one_more out (p.distinct index (bucket_idx_lt h e p)))

  pub holds-remove_elem :
      (e x : ℕ) (h : Hash) → holds (Hash.remove_elem hash less e h) x ≡ not (e == x) && holds h x
  unfolding Hash.remove_elem Hash.find_bucket Hash.bucket_idx
  holds-remove_elem e x h = elim (Bool-cases (e == x)) [
    | inl here ↦
        let q : e ≡ x = ground arith in
        ground (arith, q, has-remove e x (Hash.find_bucket hash less h x))
    | inr there ↦ ground (arith, there, has-remove e x (Hash.find_bucket hash less h x))
  ]

  pub remove_elem-IsPlaced :
      (e : ℕ) (h : Hash) → IsPlaced h → IsPlaced (Hash.remove_elem hash less e h)
  unfolding Hash.remove_elem Hash.find_bucket
  remove_elem-IsPlaced e h p =
      let index = Hash.bucket_idx hash less h e in
      let bucket = h.buckets index in
      let lt = bucket_idx_lt h e p in
      count-IsPlaced (Hash.before h.elem_cnt) (Hash.set_bucket index (Queue.remove e bucket) h) (
        set_bucket-IsPlaced index (Queue.remove e bucket) h p
          (λ y i. ground (arith, i, has-remove e y bucket, p.placed index y lt))
          (erase-AreDistinct e bucket (p.distinct index lt)))

  pub insert_elem-IsPlaced :
      (e : ℕ) (h : Hash)
      → IsPlaced h
      → holds h e ≡ false
      → IsPlaced (Hash.insert_elem hash less e h)
  unfolding Hash.insert_elem Hash.find_bucket Hash.bucket_idx
  insert_elem-IsPlaced e h p out =
      place-IsPlaced e (record h { elem_cnt = Hash.after h.elem_cnt })
        (count-IsPlaced (Hash.after h.elem_cnt) h p) out

  pub holds-insert_elem :
      (e x : ℕ) (h : Hash) → holds (Hash.insert_elem hash less e h) x ≡ (e == x) || holds h x
  unfolding Hash.insert_elem Hash.find_bucket Hash.bucket_idx
  holds-insert_elem e x h = holds-place e x (record h { elem_cnt = Hash.after h.elem_cnt })
