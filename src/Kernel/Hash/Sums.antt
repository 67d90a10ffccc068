-- ===== src/Kernel/Hash/Sums.antt =====
-- The number of elements in the buckets of a table of lib/kernel/hash.c.
use implso.Prelude.{
  ℕ, zero, suc, ◌+◌, ◌≤◌, ◌<◌, ◌≡◌, refl, List, [], arith, ◌==◌, length, Bool-cases, inl, inr,
}
use implso.Kernel.Hash.{Hash, set_bucket}

-- The elements of the buckets from `i` on, `rest` in number.
abbrev pub total : (ℕ → List ℕ) → (rest i : ℕ) → ℕ
total b zero i = 0
total b (suc rest) i = length (b i) + total b rest (i + 1)

total_agree :
    (b b' : ℕ → List ℕ) (rest i : ℕ)
    → ((j : ℕ) → i ≤ j → b' j ≡ b j)
    → total b' rest i ≡ total b rest i
total_agree b b' zero i same = refl
total_agree b b' (suc rest) i same =
    ground
      (arith, same i (omega arith), total_agree b b' rest (i + 1) (λ j h. same j (omega arith)))

abbrev pub total_of : Hash → ℕ
total_of h = total h.buckets h.bucket_cnt 0

total_set :
    (h : Hash) (index : ℕ) (bucket : List ℕ) (rest i : ℕ)
    → i ≤ index
    → index < i + rest
    → total (set_bucket index bucket h).buckets rest i + length (h.buckets index)
      ≡ total h.buckets rest i + length bucket
total_set h index bucket zero i le lt = absurd (omega arith)
total_set h index bucket (suc rest) i le lt = elim (Bool-cases (i == index)) [
  | inl e ↦
      let q : i ≡ index = ground arith in
      ground (
        arith,
        e,
        q,
        total_agree h.buckets (set_bucket index bucket h).buckets rest (i + 1)
            (λ j h. ground arith),
      )
  | inr e ↦ ground (arith, e, total_set h index bucket rest (i + 1) (ground arith) (ground arith))
]

pub total_of-set_bucket :
    (h : Hash) (index : ℕ) (bucket : List ℕ)
    → index < h.bucket_cnt
    → total_of (set_bucket index bucket h) + length (h.buckets index) ≡ total_of h + length bucket
total_of-set_bucket h index bucket lt =
    total_set h index bucket h.bucket_cnt 0 (omega arith) (omega arith)

pub total_empty : (rest i : ℕ) → total (λ j. []) rest i ≡ 0
total_empty zero i = refl
total_empty (suc rest) i = omega (arith, total_empty rest (i + 1))
