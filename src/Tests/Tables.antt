-- ===== src/Tests/Tables.antt =====
-- lib/kernel/hash.c on a table of four buckets whose only element is 5, with the address as the key.
use implso.Prelude.{
  ℕ, ◌*◌, ◌⊎◌, ◌≤◌, ◌≡◌, refl, true, [], ◌∷◌, arith, ◌==◌, ltb, if◌then◌else◌, Bool-cases, inl, inr,
}
use implso.Prelude.Run.{Returns}
use implso.Kernel.Queue.{has}
use implso.Kernel.Linked.Distinct.{none_left, one_more}
use implso.Kernel.Hash
use implso.Kernel.Hash.{Hash}
use implso.Kernel.Hash.Contents.{IsKey}
use implso.Kernel.Hash.Leave.{Deleted, delete_lem}
use implso.Kernel.Hash.Power.{new_bucket_cnt_lem, IsPower}
use implso.Kernel.Hash.Table.{IsTable, Keeps, Inserted, insert-Inserted, rehash_lem}

abbrev address : ℕ → ℕ
address a = a

abbrev table : Hash
table = record { elem_cnt = 1; bucket_cnt = 4; buckets = λ i. if i == 1 then 5 ∷ [] else [] }

ltb-IsKey : IsKey address ltb
unfolding Hash.equal
ltb-IsKey = record {
  equal_self = λ a. ground arith;
  equal_symm = λ a b. ground arith;
  equal_trans = λ a b c e f. ground arith;
  hash_equal = λ a b e. ground arith;
}

only_five : (i e : ℕ) → has e (table.buckets i) ≡ true → (i ≡ 1) × (e ≡ 5)
only_five i e h = ground (arith, h)

held-five : (x : ℕ) → has x (Hash.find_bucket address ltb table x) ≡ true → x ≡ 5
unfolding Hash.find_bucket
held-five x h = (only_five (Hash.bucket_idx address ltb table x) x h).1

table-IsTable : IsTable address ltb table
unfolding Hash.bucket_idx
table-IsTable = record {
  placed = record {
    power = (2, refl);
    width = omega arith;
    placed = λ i e lt h. let (p, q) = only_five i e h in rw (p, q) refl;
    distinct = λ i lt. elim (Bool-cases (i == 1)) [
      | inl here ↦ rw here (one_more refl none_left)
      | inr there ↦ rw there none_left
    ];
  };
  counted = refl;
  bounded = omega arith;
  unique = λ a b h k e. ground (arith, held-five a h, held-five b k);
}

insert-Inserted_example :
    Returns (Inserted address ltb 9 table) (Hash.insert address ltb true 9 table)
insert-Inserted_example =
    insert-Inserted address ltb ltb-IsKey true 9 table table-IsTable (omega arith)

delete_lem_example : Returns (Deleted address ltb 5 table) (Hash.delete address ltb true 5 table)
delete_lem_example = delete_lem address ltb ltb-IsKey true 5 table table-IsTable

rehash_lem_example : Returns (Keeps address ltb table) (Hash.rehash address ltb true table)
rehash_lem_example = rehash_lem address ltb true table table-IsTable

new_bucket_cnt_lem_example :
    Returns
      (λ cnt. IsPower cnt × ((cnt ≤ 4) ⊎ (2 * cnt ≤ 100)))
      (Hash.new_bucket_cnt (record table { elem_cnt = 100 }))
new_bucket_cnt_lem_example = new_bucket_cnt_lem (record table { elem_cnt = 100 }) (omega arith)
