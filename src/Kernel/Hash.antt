-- ===== src/Kernel/Hash.antt =====
-- lib/kernel/hash.c: the hash table. An element is known by its address; a bucket is the sequence of
-- its elements.
pub mod Agree
pub mod Bytes
pub mod Contents
pub mod Counts
pub mod Iterate
pub mod Leave
pub mod Move
pub mod Table
pub mod Power
pub mod Sums
use Prim.Native.Nat.{bit_and}
use implso.Prelude.{
  ℕ, zero, suc, ◌+◌, ◌-◌, ◌/◌, ◌%◌, ◌^◌, Bool, true, false, not, ◌&&◌, List, [], ◌∷◌, Option, none,
  some, ltb, ◌==◌, if◌then◌else◌,
}
use implso.Prelude.Run.{Run, ok, panic, ◌>>=◌, ◌>>◌, assert}
use implso.Kernel.Queue

-- The functions `hash` and `less` of the table are parameters below.
pub record Hash : Type 0 where
  pub elem_cnt : ℕ
  pub bucket_cnt : ℕ
  pub buckets : ℕ → List ℕ

abbrev pub set_bucket : (index : ℕ) → List ℕ → Hash → Hash
set_bucket index bucket h = record h { buckets = λ i. if i == index then bucket else h.buckets i }

-- The loop of hash_clear, which empties the buckets from `i` on, `rest` in number. DESTRUCTOR acts
-- on the elements and not on the table.
unfoldable pub clear_loop : (rest i : ℕ) → Hash → Hash
clear_loop zero i h = h
clear_loop (suc rest) i h = clear_loop rest (i + 1) (set_bucket i [] h)

unfoldable pub clear : Hash → Hash
clear h = record (clear_loop h.bucket_cnt 0 h) { elem_cnt = 0 }

-- `buckets` is the memory that malloc gives, if it gives any.
unfoldable pub init : Option (ℕ → List ℕ) → Option Hash
init none = none
init (some buckets) = some (clear (record { elem_cnt = 0; bucket_cnt = 4; buckets = buckets }))

-- `x - 1` and `x + 1` on size_t
abbrev pub before : ℕ → ℕ
before x = (x + (2 ^ 32 - 1)) % 2 ^ 32

abbrev pub after : ℕ → ℕ
after x = (x + 1) % 2 ^ 32

unfoldable pub turn_off_least_1bit : ℕ → ℕ
turn_off_least_1bit x = bit_and x (before x)

unfoldable pub is_power_of_2 : ℕ → Bool
is_power_of_2 x = not (x == 0) && (turn_off_least_1bit x == 0)

-- `while (!is_power_of_2 (new_bucket_cnt))`, on fuel.
unfoldable pub power_loop : (fuel new_bucket_cnt : ℕ) → Run ℕ
power_loop zero new_bucket_cnt = panic
power_loop (suc fuel) new_bucket_cnt = elim (is_power_of_2 new_bucket_cnt) [
  | true ↦ ok new_bucket_cnt
  | false ↦ power_loop fuel (turn_off_least_1bit new_bucket_cnt)
]

abbrev pub best_elems_per_bucket : ℕ
best_elems_per_bucket = 2

-- The number of buckets to use now. Each round makes it smaller, so it is its own fuel.
unfoldable pub new_bucket_cnt : Hash → Run ℕ
new_bucket_cnt h =
    let ideal = h.elem_cnt / best_elems_per_bucket in
    let cnt = if ltb ideal 4 then 4 else ideal in power_loop cnt cnt

module _ (hash : ℕ → ℕ) (less : ℕ → ℕ → Bool) where
  unfoldable pub bucket_idx : Hash → ℕ → ℕ
  bucket_idx h e = bit_and (hash e) (before h.bucket_cnt)

  -- The elements of the bucket that `e` belongs in.
  unfoldable pub find_bucket : Hash → ℕ → List ℕ
  find_bucket h e = h.buckets (bucket_idx h e)

  unfoldable pub equal : ℕ → ℕ → Bool
  equal a b = not (less a b) && not (less b a)

  unfoldable pub find_elem : (bucket : List ℕ) (e : ℕ) → Option ℕ
  find_elem [] e = none
  find_elem (hi ∷ rest) e = let later = find_elem rest e in if equal hi e then some hi else later

  unfoldable pub find : Hash → ℕ → Option ℕ
  find h e = find_elem (find_bucket h e) e

  -- `list_push_front` to the bucket that `e` belongs in.
  unfoldable pub place : ℕ → Hash → Hash
  place e h = set_bucket (bucket_idx h e) (e ∷ find_bucket h e) h

  unfoldable pub insert_elem : ℕ → Hash → Hash
  insert_elem e h = place e (record h { elem_cnt = after h.elem_cnt })

  unfoldable pub remove_elem : ℕ → Hash → Hash
  remove_elem e h =
      set_bucket (bucket_idx h e) (Queue.remove e (find_bucket h e))
        (record h { elem_cnt = before h.elem_cnt })

  -- The elements of an old bucket, each moved to its new one.
  unfoldable pub move_bucket : List ℕ → Hash → Hash
  move_bucket [] h = h
  move_bucket (e ∷ rest) h = move_bucket rest (place e h)

  -- The old buckets from `i` on, `rest` in number.
  unfoldable pub move_loop : (old : ℕ → List ℕ) (rest i : ℕ) → Hash → Hash
  move_loop old zero i h = h
  move_loop old (suc rest) i h = move_loop old rest (i + 1) (move_bucket (old i) h)

  -- The table with `cnt` new buckets.
  unfoldable pub resize : (cnt : ℕ) → Hash → Hash
  resize cnt h =
      move_loop h.buckets h.bucket_cnt 0 (record h { bucket_cnt = cnt; buckets = λ i. [] })

  -- `memory`: malloc gives the new buckets.
  unfoldable pub rehash : (memory : Bool) → Hash → Run Hash
  rehash memory h = do
    cnt ← new_bucket_cnt h
    if cnt == h.bucket_cnt then ok h else if not memory then ok h else ok (resize cnt h)

  -- `if (old == NULL) insert_elem (h, bucket, new);`
  unfoldable pub enter : (new : ℕ) (old : Option ℕ) → Hash → Hash
  enter new none h = insert_elem new h
  enter new (some old) h = h

  unfoldable pub insert : (memory : Bool) (new : ℕ) → Hash → Run (Option ℕ × Hash)
  insert memory new h = do let old = find h new; h' ← rehash memory (enter new old h); ok (old, h')

  -- `if (old != NULL) remove_elem (h, old);`
  unfoldable pub leave : (old : Option ℕ) → Hash → Hash
  leave none h = h
  leave (some old) h = remove_elem old h

  unfoldable pub replace : (memory : Bool) (new : ℕ) → Hash → Run (Option ℕ × Hash)
  replace memory new h = do
    let old = find h new
    h' ← rehash memory (insert_elem new (leave old h))
    ok (old, h')

  -- `if (found != NULL)` with its body.
  unfoldable pub take : (memory : Bool) (found : Option ℕ) → Hash → Run Hash
  take memory none h = ok h
  take memory (some found) h = rehash memory (remove_elem found h)

  unfoldable pub delete : (memory : Bool) (e : ℕ) → Hash → Run (Option ℕ × Hash)
  delete memory e h = do let found = find h e; h' ← take memory found h; ok (found, h')

unfoldable pub size : Hash → ℕ
size h = h.elem_cnt

unfoldable pub is_empty : Hash → Bool
is_empty h = h.elem_cnt == 0
