-- ===== src/Kernel/Queue.antt =====
-- lib/kernel/list.c as the scheduler uses it: a list is the sequence of its elements, each of which
-- stands in it at most once, and an order is a Boolean test.
use implso.Prelude.{
  ℕ, ◌≤◌, ◌≡◌, refl, ◌≢◌, Bool, true, false, not, ◌&&◌, ◌||◌, List, [], ◌∷◌, Option, none, some,
  arith, ltb, ◌==◌, if◌then◌else◌, Bool-cases, inl, inr,
}

abbrev pub has : ℕ → List ℕ → Bool
has x [] = false
has x (y ∷ ys) = (y == x) || has x ys

-- list_insert_ordered: before the first element that is greater.
abbrev pub insert_ordered : (less : ℕ → ℕ → Bool) → ℕ → List ℕ → List ℕ
insert_ordered less x [] = x ∷ []
insert_ordered less x (y ∷ ys) =
    let rest = insert_ordered less x ys in if less x y then x ∷ (y ∷ ys) else y ∷ rest

abbrev pub max_loop : (less : ℕ → ℕ → Bool) → ℕ → List ℕ → ℕ
max_loop less max [] = max
max_loop less max (e ∷ es) = max_loop less (if less max e then e else max) es

-- list_max, which gives the tail for an empty list.
abbrev pub list_max : (less : ℕ → ℕ → Bool) → List ℕ → Option ℕ
list_max less [] = none
list_max less (x ∷ xs) = some (max_loop less x xs)

-- list_remove, for an element that the list holds once.
abbrev pub remove : ℕ → List ℕ → List ℕ
remove x [] = []
remove x (y ∷ ys) = let rest = remove x ys in if y == x then rest else y ∷ rest

abbrev pub push_back : ℕ → List ℕ → List ℕ
push_back x [] = x ∷ []
push_back x (y ∷ ys) = y ∷ push_back x ys

-- The order of the scheduler's lists, thread_cmp: the greater priority stands before.
abbrev pub above : (ℕ → ℕ) → ℕ → ℕ → Bool
above p x y = ltb (p y) (p x)

-- Each element is there once, and the priorities do not increase.
pub data IsQueue (p : ℕ → ℕ) : List ℕ → Type 0 where
  empty : IsQueue p []
  link :
      (x : ℕ) (xs : List ℕ)
      → ((y : ℕ) → has y xs ≡ true → (p y ≤ p x) × (y ≢ x))
      → IsQueue p xs
      → IsQueue p (x ∷ xs)

pub has-insert_ordered :
    (less : ℕ → ℕ → Bool) (x y : ℕ) (xs : List ℕ)
    → has y (insert_ordered less x xs) ≡ (x == y) || has y xs
has-insert_ordered less x y [] = refl
has-insert_ordered less x y (z ∷ zs) = ground (arith, has-insert_ordered less x y zs)

pub has-push_back : (x y : ℕ) (xs : List ℕ) → has y (push_back x xs) ≡ (x == y) || has y xs
has-push_back x y [] = refl
has-push_back x y (z ∷ zs) = ground (arith, has-push_back x y zs)

pub has-remove : (x y : ℕ) (xs : List ℕ) → has y (remove x xs) ≡ not (x == y) && has y xs
has-remove x y [] = ground arith
has-remove x y (z ∷ zs) = ground (arith, has-remove x y zs)

pub insert_ordered-IsQueue :
    (p : ℕ → ℕ) (x : ℕ) (xs : List ℕ)
    → IsQueue p xs
    → has x xs ≡ false
    → IsQueue p (insert_ordered (above p) x xs)
insert_ordered-IsQueue p x [] q h = link x [] (λ y e. ground arith) empty
insert_ordered-IsQueue p x (z ∷ zs) (link _ _ below q) h = elim (Bool-cases (above p x z)) [
  | inl first ↦ rw first (link x (z ∷ zs) (λ y e. ground (arith, below y)) (link z zs below q))
  | inr later ↦ rw later (
      link z _ (λ y e. ground (arith, has-insert_ordered (above p) x y zs, below y))
        (insert_ordered-IsQueue p x zs q (ground arith)))
]

pub remove-IsQueue : (p : ℕ → ℕ) (x : ℕ) (xs : List ℕ) → IsQueue p xs → IsQueue p (remove x xs)
remove-IsQueue p x [] q = empty
remove-IsQueue p x (z ∷ zs) (link _ _ below q) = elim (Bool-cases (z == x)) [
  | inl here ↦ rw here (remove-IsQueue p x zs q)
  | inr there ↦
      rw there
        (link z _ (λ y e. ground (arith, has-remove x y zs, below y)) (remove-IsQueue p x zs q))
]

pub IsQueue-agree :
    (p p' : ℕ → ℕ) (xs : List ℕ)
    → ((y : ℕ) → has y xs ≡ true → p' y ≡ p y)
    → IsQueue p xs
    → IsQueue p' xs
IsQueue-agree p p' [] same empty = empty
IsQueue-agree p p' (x ∷ xs) same (link _ _ below q) =
    link x xs (λ y e. ground (arith, below y, same y, same x))
      (IsQueue-agree p p' xs (λ y e. same y (ground arith)) q)

-- `r` is `m` or an element of the list, and nothing there is greater.
pub record IsMax (p : ℕ → ℕ) (m : ℕ) (xs : List ℕ) (r : ℕ) : Type 0 where
  pub chosen : has r (m ∷ xs) ≡ true
  pub greatest : (y : ℕ) → has y (m ∷ xs) ≡ true → p y ≤ p r

-- The order by priority alone, as the callers of list_max have it.
abbrev pub under : (ℕ → ℕ) → ℕ → ℕ → Bool
under p x y = ltb (p x) (p y)

IsMax-step :
    {p : ℕ → ℕ} {m x : ℕ} {xs : List ℕ} {r : ℕ}
    → IsMax p (if under p m x then x else m) xs r
    → IsMax p m (x ∷ xs) r
IsMax-step {p} {m} {x} s = record {
  chosen = ground (arith, s.chosen);
  greatest = λ y e. ground (arith, s.greatest y, s.greatest m, s.greatest x);
}

pub max_loop-IsMax : (p : ℕ → ℕ) (m : ℕ) (xs : List ℕ) → IsMax p m xs (max_loop (under p) m xs)
max_loop-IsMax p m [] = record { chosen = ground arith; greatest = λ y e. ground arith }
max_loop-IsMax p m (x ∷ xs) = IsMax-step (max_loop-IsMax p (if under p m x then x else m) xs)

-- list_max of an empty list and of another one.
pub data MaxOf (p : ℕ → ℕ) (xs : List ℕ) : Option ℕ → Type 0 where
  nothing : xs ≡ [] → MaxOf p xs none
  most : (t : ℕ) → has t xs ≡ true → ((u : ℕ) → has u xs ≡ true → p u ≤ p t) → MaxOf p xs (some t)

pub list_max-MaxOf : (p : ℕ → ℕ) (xs : List ℕ) → MaxOf p xs (list_max (under p) xs)
list_max-MaxOf p [] = nothing refl
list_max-MaxOf p (x ∷ xs) = let top = max_loop-IsMax p x xs in most _ top.chosen top.greatest
