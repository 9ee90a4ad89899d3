-- ===== src/Prelude/Tests.antt =====
-- Boolean tests on the native numbers and on texts, the conditional, and case lemmas.
use Prim.Native.Nat.{ℕ, compare, Ordering}
use mathlib.Core.Path.{◌≡◌, refl}
use mathlib.Core.Logic.{◌↔◌, ◌⊎◌, inl, inr}
use mathlib.Core.Bool.{Bool, true, false, ◌&&◌}
use mathlib.Core.Option.{Option, none, some}
use mathlib.Core.List.{List, [], ◌∷◌}
use native.Mathlib.Omega.{arith}

abbrev pub ltb : ℕ → ℕ → Bool
ltb a b = elim (compare a b) [ Ordering.lt ↦ true | _ ↦ false ]

abbrev pub leb : ℕ → ℕ → Bool
leb a b = elim (compare a b) [ Ordering.gt ↦ false | _ ↦ true ]

infix 50 ◌==◌
abbrev pub ◌==◌ : ℕ → ℕ → Bool
a == b = elim (compare a b) [ Ordering.eq ↦ true | _ ↦ false ]

infix 1 if◌then◌else◌
abbrev pub if◌then◌else◌ {ℓ} : {A : Type ℓ} → Bool → A → A → A
if true then x else y = x
if false then x else y = y

pub Bool-cases : (b : Bool) → (b ≡ true) ⊎ (b ≡ false)
Bool-cases true = inl refl
Bool-cases false = inr refl

pub Option-cases {ℓ} : {A : Type ℓ} (o : Option A) → (o ≡ none) ⊎ ((a : A) × (o ≡ some a))
Option-cases none = inl refl
Option-cases (some a) = inr (a, refl)

-- A text or a byte string is the list of its bytes.
abbrev pub Text : Type 0
Text = List ℕ

infix 50 ◌=text◌
unfoldable pub ◌=text◌ : Text → Text → Bool
[] =text [] = true
[] =text (y ∷ ys) = false
(x ∷ xs) =text [] = false
(x ∷ xs) =text (y ∷ ys) = (x == y) && (xs =text ys)

pub =text_iff : (s t : Text) → ((s =text t) ≡ true) ↔ (s ≡ t)
unfolding ◌=text◌
=text_iff [] [] = ground arith
=text_iff [] (y ∷ ys) = ground arith
=text_iff (x ∷ xs) [] = ground arith
=text_iff (x ∷ xs) (y ∷ ys) = ground (arith, =text_iff xs ys)

pub =text_refl : (s : Text) → (s =text s) ≡ true
=text_refl s = ground (arith, =text_iff s s)

pub =text_swap : (s t : Text) → (s =text t) ≡ (t =text s)
=text_swap s t = ground (arith, =text_iff s t, =text_iff t s)
