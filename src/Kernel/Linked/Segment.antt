-- ===== src/Kernel/Linked/Segment.antt =====
-- The sequence of elements that a list of lib/kernel/list.c links.
use implso.Prelude.{ℕ, ◌≡◌, ◌≢◌, true, false, List, [], ◌∷◌, ◌++◌, arith}
use mathlib.Core.List.{append-nil}
use implso.Kernel.Queue.{has}
use implso.Kernel.Linked.Distinct.{AreDistinct}
use implso.Kernel.Linked.{Memory, null, head_of, tail_of}

-- The elements `xs` stand between `a` and `b`.
pub data Segment (m : Memory) : ℕ → List ℕ → ℕ → Type 0 where
  last : {a b : ℕ} → m.next a ≡ b → m.prev b ≡ a → Segment m a [] b
  link :
      {a x b : ℕ} {xs : List ℕ}
      → m.next a ≡ x
      → m.prev x ≡ a
      → Segment m x xs b
      → Segment m a (x ∷ xs) b

-- The list at the address `list` holds the elements `xs`.
pub record IsList (m : Memory) (list : ℕ) (xs : List ℕ) : Type 0 where
  pub nonnull : list ≢ null
  pub head_prev : m.prev (head_of list) ≡ null
  pub tail_next : m.next (tail_of list) ≡ null
  pub links : Segment m (head_of list) xs (tail_of list)
  pub null_outside : has null xs ≡ false
  pub head_outside : has (head_of list) xs ≡ false
  pub tail_outside : has (tail_of list) xs ≡ false
  pub distinct : AreDistinct xs

-- The element where a pass over the list stands that has `ys` before it.
abbrev pub first_or : List ℕ → ℕ → ℕ
first_or [] b = b
first_or (y ∷ ys) b = y

pub Segment-agree :
    {m m' : Memory} {a b : ℕ} {xs : List ℕ}
    → ((z : ℕ) → has z (a ∷ xs) ≡ true → m'.next z ≡ m.next z)
    → ((z : ℕ) → has z (xs ++ (b ∷ [])) ≡ true → m'.prev z ≡ m.prev z)
    → Segment m a xs b
    → Segment m' a xs b
Segment-agree {a} {b} n p (last f g) = last (ground (arith, n a, f)) (ground (arith, p b, g))
Segment-agree {a} n p (link {x} f g s) =
    link (ground (arith, n a, f)) (ground (arith, p x, g))
      (Segment-agree (λ z e. n z (ground (arith, e))) (λ z e. p z (ground (arith, e))) s)

pub Segment-append :
    {m : Memory} {a b y : ℕ} (xs : List ℕ) {ys : List ℕ}
    → Segment m a xs y
    → Segment m y ys b
    → Segment m a (xs ++ (y ∷ ys)) b
Segment-append [] (last f g) t = link f g t
Segment-append (x ∷ xs) (link f g s) t = link f g (Segment-append xs s t)

-- What a pass over the list has before it, standing at `y`.
pub data Ahead (m : Memory) (b : ℕ) : ℕ → List ℕ → Type 0 where
  done : Ahead m b b []
  more : {y : ℕ} {ys : List ℕ} → Segment m y ys b → Ahead m b y (y ∷ ys)

pub ahead_lem : {m : Memory} {b y z : ℕ} {ys : List ℕ} → Ahead m b z (y ∷ ys) → Segment m y ys b
ahead_lem (more s) = s

pub Segment-join :
    {m : Memory} {a b y : ℕ} (xs : List ℕ) {ys : List ℕ}
    → Segment m a xs y
    → Ahead m b y ys
    → Segment m a (xs ++ ys) b
Segment-join xs s done = rw (append-nil xs) s
Segment-join xs s (more t) = Segment-append xs s t

pub Segment-split :
    {m : Memory} {a b : ℕ} (xs : List ℕ) {ys : List ℕ}
    → Segment m a (xs ++ ys) b
    → Segment m a xs (first_or ys b) × Ahead m b (first_or ys b) ys
Segment-split [] {ys = []} s = (s, done)
Segment-split [] {ys = y ∷ ys} (link f g s) = (last f g, more s)
Segment-split (x ∷ xs) (link f g s) = let r = Segment-split xs s in (link f g r.0, r.1)

-- The element at the end of a segment, and the element before that.
pub data Last (m : Memory) (a b : ℕ) (xs : List ℕ) : Type 0 where
  at_last : (p : ℕ) → has p (a ∷ xs) ≡ true → m.next p ≡ b → m.prev b ≡ p → Last m a b xs

pub Segment-Last : {m : Memory} {a b : ℕ} (xs : List ℕ) → Segment m a xs b → Last m a b xs
Segment-Last {a} [] (last f g) = at_last a (ground arith) f g
Segment-Last {a} (x ∷ xs) (link f g s) = elim (Segment-Last xs s) [
  | at_last p e h k ↦ at_last p (ground (arith, e)) h k
]

pub first_lem : {m : Memory} {a b : ℕ} (xs : List ℕ) → Segment m a xs b → m.next a ≡ first_or xs b
first_lem [] (last f g) = f
first_lem (x ∷ xs) (link f g s) = f

pub last_lem : {m : Memory} {a b : ℕ} → Segment m a [] b → m.prev b ≡ a
last_lem (last f g) = g
