-- ===== src/Kernel/Hash/Iterate.antt =====
-- lib/kernel/hash.c: hash_apply, and the iterator.
use implso.Prelude.{ℕ, zero, suc, ◌+◌, List, [], ◌∷◌, Option, none, some, ◌-◌}
use implso.Kernel.Hash.{Hash}

module _ {ℓ} {S : Type ℓ} (action : ℕ → S → S) where
  unfoldable pub apply_bucket : List ℕ → S → S
  apply_bucket [] s = s
  apply_bucket (e ∷ rest) s = apply_bucket rest (action e s)

  -- The buckets from `i` on, `rest` in number.
  unfoldable pub apply_loop : (rest i : ℕ) → Hash → S → S
  apply_loop zero i h s = s
  apply_loop (suc rest) i h s = apply_loop rest (i + 1) h (apply_bucket (h.buckets i) s)

  -- ACTION changes a state `s` of the caller, and not the table.
  unfoldable pub apply : Hash → S → S
  apply h s = apply_loop h.bucket_cnt 0 h s

-- The bucket, by its index, the current element, and the elements after it in the bucket.
pub record Iterator : Type 0 where
  pub bucket : ℕ
  pub elem : Option ℕ
  pub ahead : List ℕ

-- hash_first: the element is the head of the first bucket.
unfoldable pub first : Hash → Iterator
first h = record { bucket = 0; elem = none; ahead = h.buckets 0 }

-- The loop of hash_next from the bucket `i`, of which `ahead` is left; `rest` buckets follow.
unfoldable pub next_loop : Hash → (rest i : ℕ) → (ahead : List ℕ) → Iterator
next_loop h rest i (e ∷ ahead) = record { bucket = i; elem = some e; ahead = ahead }
next_loop h zero i [] = record { bucket = i + 1; elem = none; ahead = [] }
next_loop h (suc rest) i [] = next_loop h rest (i + 1) (h.buckets (i + 1))

unfoldable pub next : Hash → Iterator → Iterator
next h i = next_loop h (h.bucket_cnt - (i.bucket + 1)) i.bucket i.ahead

unfoldable pub current : Iterator → Option ℕ
current i = i.elem
