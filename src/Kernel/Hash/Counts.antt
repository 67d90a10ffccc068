-- ===== src/Kernel/Hash/Counts.antt =====
-- insert_elem and remove_elem of lib/kernel/hash.c: the number of elements in the buckets.
use implso.Prelude.{
  ℕ, suc, ◌+◌, ◌≡◌, ◌<◌, ◌^◌, refl, Bool, true, false, List, [], ◌∷◌, arith, ◌==◌, Bool-cases, inl,
  inr, length,
}
use implso.Kernel.Queue
use implso.Kernel.Queue.{has}
use implso.Kernel.Linked.Distinct.{AreDistinct, one_more}
use implso.Kernel.Hash
use implso.Kernel.Hash.{Hash}
use implso.Kernel.Hash.Contents.{holds, IsPlaced, bucket_idx_lt}
use implso.Kernel.Hash.Sums.{total_of, total_of-set_bucket}

remove_absent : (e : ℕ) (xs : List ℕ) → has e xs ≡ false → Queue.remove e xs ≡ xs
remove_absent e [] h = refl
remove_absent e (x ∷ xs) h = ground (arith, remove_absent e xs, h)

length-remove :
    (e : ℕ) (xs : List ℕ)
    → AreDistinct xs
    → has e xs ≡ true
    → length (Queue.remove e xs) + 1 ≡ length xs
length-remove e [] d h = absurd (ground (arith, h))
length-remove e (x ∷ xs) (one_more out d) h = elim (Bool-cases (x == e)) [
  | inl here ↦ let q : x ≡ e = ground arith in ground (arith, q, here, remove_absent e xs, out)
  | inr there ↦ ground (arith, there, length-remove e xs d, h)
]

module _ (hash : ℕ → ℕ) (less : ℕ → ℕ → Bool) where
  pub total-insert_elem :
      (e : ℕ) (h : Hash)
      → IsPlaced hash less h
      → total_of (Hash.insert_elem hash less e h) ≡ total_of h + 1
  unfolding Hash.insert_elem Hash.place Hash.find_bucket Hash.bucket_idx
  total-insert_elem e h p =
      let i = Hash.bucket_idx hash less h e in
      omega (arith, total_of-set_bucket h i (e ∷ h.buckets i) (bucket_idx_lt hash less h e p))

  pub total-remove_elem :
      (e : ℕ) (h : Hash)
      → IsPlaced hash less h
      → holds hash less h e ≡ true
      → total_of (Hash.remove_elem hash less e h) + 1 ≡ total_of h
  unfolding Hash.remove_elem Hash.find_bucket Hash.bucket_idx
  total-remove_elem e h p held =
      let i = Hash.bucket_idx hash less h e in
      let lt = bucket_idx_lt hash less h e p in
      omega (
        arith,
        total_of-set_bucket h i (Queue.remove e (h.buckets i)) lt,
        length-remove e (h.buckets i) (p.distinct i lt) held,
      )

pub elem_cnt-insert_elem :
    (hash : ℕ → ℕ) (less : ℕ → ℕ → Bool) (e : ℕ) (h : Hash)
    → suc h.elem_cnt < 2 ^ 32
    → (Hash.insert_elem hash less e h).elem_cnt ≡ h.elem_cnt + 1
unfolding Hash.insert_elem Hash.place
elem_cnt-insert_elem hash less e h w = omega arith

pub elem_cnt-remove_elem :
    (hash : ℕ → ℕ) (less : ℕ → ℕ → Bool) (e : ℕ) (h : Hash) (n : ℕ)
    → h.elem_cnt ≡ n + 1
    → h.elem_cnt < 2 ^ 32
    → (Hash.remove_elem hash less e h).elem_cnt ≡ n
unfolding Hash.remove_elem
elem_cnt-remove_elem hash less e h n q w = omega (arith, q)
