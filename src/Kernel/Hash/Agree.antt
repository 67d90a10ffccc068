-- ===== src/Kernel/Hash/Agree.antt =====
-- A table of lib/kernel/hash.c under two hash functions and orders that agree on its elements.
use implso.Prelude.{ℕ, ◌≡◌, sym, ◌∙◌, Bool, true, arith}
use implso.Kernel.Hash
use implso.Kernel.Hash.{Hash}
use implso.Kernel.Hash.Contents.{IsPlaced, holds}
use implso.Kernel.Hash.Move.{among, bucket_among, holds-among}
use implso.Kernel.Hash.Table.{IsTable}

-- `x` is in a bucket.
abbrev pub stands : Hash → ℕ → Bool
stands h x = among h.buckets h.bucket_cnt 0 x

module _ (hash hash' : ℕ → ℕ) (less less' : ℕ → ℕ → Bool) (h : Hash)
    (same_hash : (x : ℕ) → stands h x ≡ true → hash' x ≡ hash x)
    (same_less : (x y : ℕ) → stands h x ≡ true → stands h y ≡ true → less' x y ≡ less x y) where
  IsPlaced-agree : IsPlaced hash less h → IsPlaced hash' less' h
  unfolding Hash.bucket_idx
  IsPlaced-agree p = record {
    power = p.power;
    width = p.width;
    placed = λ i e lt m.
        rw (same_hash e (bucket_among h.buckets h.bucket_cnt 0 i e (omega arith) (omega arith) m))
          (p.placed i e lt m);
    distinct = p.distinct;
  }

  same_holds : (x : ℕ) → IsPlaced hash less h → holds hash' less' h x ≡ holds hash less h x
  same_holds x p =
      holds-among hash' less' h x (IsPlaced-agree p) ∙ sym (holds-among hash less h x p)

  pub IsTable-agree : IsTable hash less h → IsTable hash' less' h
  unfolding Hash.equal
  IsTable-agree t = record {
    placed = IsPlaced-agree t.placed;
    counted = t.counted;
    bounded = t.bounded;
    unique = λ a b i j e.
        let i' = sym (same_holds a t.placed) ∙ i in
        let j' = sym (same_holds b t.placed) ∙ j in
        let s = sym (holds-among hash less h a t.placed) ∙ i' in
        let u = sym (holds-among hash less h b t.placed) ∙ j' in
        t.unique a b i' j' (ground (arith, e, same_less a b s u, same_less b a u s));
  }
