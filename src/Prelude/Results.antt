-- ===== src/Prelude/Results.antt =====
-- How a call of the program ends: with a value, with an error value of type `E`, or in a panic
-- (an `unwrap` of an error or of `None`, a checked overflow, a division by zero).
use mathlib.Core.Path.{◌≡◌, refl}
use mathlib.Core.Option.{Option, none, some}
use native.Mathlib.Omega.{arith}

pub data Outcome {ℓ} (E : Type 0) (A : Type ℓ) : Type ℓ where
  ok : A → Outcome E A
  err : E → Outcome E A
  panic : Outcome E A

infixl 5 ◌>>=◌ ◌>>◌
abbrev pub ◌>>=◌ {ℓ κ} :
    {E : Type 0} {A : Type ℓ} {B : Type κ} → Outcome E A → (A → Outcome E B) → Outcome E B
ok a >>= f = f a
err e >>= f = err e
panic >>= f = panic

-- A chain that gives a value has passed through its first call.
pub bind_ok :
    {E A B : Type 0} (m : Outcome E A) (f : A → Outcome E B) (b : B)
    → (m >>= f) ≡ ok b
    → (a : A) × (m ≡ ok a) × (f a ≡ ok b)
bind_ok (ok a) f b e = (a, refl, e)
bind_ok (err e') f b e = absurd (ground arith)
bind_ok panic f b e = absurd (ground arith)

abbrev pub ◌>>◌ {κ} : {E : Type 0} {B : Type κ} → Outcome E (Unit {0}) → Outcome E B → Outcome E B
m >> k = m >>= λ _. k

module _ {E : Type 0} where
  -- `.unwrap()` on a `Result`.
  abbrev pub unwrap {ℓ} : {A : Type ℓ} → Outcome E A → Outcome E A
  unwrap (ok a) = ok a
  unwrap (err e) = panic
  unwrap panic = panic

  -- `.unwrap()` on an `Option`.
  abbrev pub expect_some {ℓ} : {A : Type ℓ} → Option A → Outcome E A
  expect_some none = panic
  expect_some (some a) = ok a

  -- An error in place of `None`.
  abbrev pub or_err {ℓ} : {A : Type ℓ} → E → Option A → Outcome E A
  or_err e none = err e
  or_err e (some a) = ok a

abbrev pub unwrap_or {ℓ} : {A : Type ℓ} → A → Option A → A
unwrap_or d none = d
unwrap_or d (some a) = a
