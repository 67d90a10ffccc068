-- ===== src/Prelude/Run.antt =====
-- Code that may fail an ASSERT (debug.h), which panics the kernel: results, their sequencing, and
-- total correctness.
use mathlib.Core.Path.{◌≡◌, refl}
use mathlib.Core.Bool.{Bool, true, false}

pub data Run {ℓ} (A : Type ℓ) : Type ℓ where
  ok : A → Run A
  panic : Run A

infixl 5 ◌>>=◌ ◌>>◌
abbrev pub ◌>>=◌ {ℓ κ} : {A : Type ℓ} {B : Type κ} → Run A → (A → Run B) → Run B
ok a >>= f = f a
panic >>= f = panic

abbrev pub ◌>>◌ {ℓ} : {B : Type ℓ} → Run (Unit {0}) → Run B → Run B
m >> k = m >>= λ _. k

-- `ASSERT (condition)`
abbrev pub assert : Bool → Run (Unit {0})
assert true = ok tt
assert false = panic

-- The run does not panic, and its result satisfies `P`.
pub data Returns {ℓ κ} {A : Type ℓ} (P : A → Type κ) : Run A → Type (ℓ ⊔ κ) where
  returns : {a : A} → P a → Returns P (ok a)

module _ {ℓ κ} {A : Type ℓ} {P : A → Type κ} where
  pub bind {μ ν} :
      {B : Type μ} {Q : B → Type ν} {r : Run A} {k : A → Run B}
      → Returns P r
      → ((a : A) → P a → Returns Q (k a))
      → Returns Q (r >>= k)
  bind (returns p) next = next _ p

  pub mono {ν} : {Q : A → Type ν} {r : Run A} → Returns P r → ((a : A) → P a → Q a) → Returns Q r
  mono (returns p) weaken = returns (weaken _ p)

  pub Returns-eq : {r : Run A} → Returns P r → (a : A) × (r ≡ ok a) × P a
  Returns-eq (returns {a} p) = (a, refl, p)

  -- An assertion that holds.
  pub pass : {b : Bool} {r : Run A} → b ≡ true → Returns P r → Returns P (assert b >> r)
  pass e p = rw e p
