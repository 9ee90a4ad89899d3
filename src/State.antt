-- ===== src/State.antt =====
-- Code that works on a state of type `S` and ends in a value, an error of type `E` or a panic. What it
-- did to the state before it failed stays done.
use sensei.Prelude.{◌≡◌, refl, ap, ◌∙◌, sym, arith, Outcome, ok, err, panic}
use sensei.Prelude

abbrev pub Run {ℓ} : Type 0 → Type 0 → Type ℓ → Type ℓ
Run S E A = S → Outcome E A × S

infixl 5 ◌>>=◌ ◌>>◌
abbrev pub ◌>>=◌ {ℓ κ} :
    {S E : Type 0} {A : Type ℓ} {B : Type κ} → Run S E A → (A → Run S E B) → Run S E B
◌>>=◌ m f s =
    let (r, s') = m s in elim r [ ok a ↦ f a s' | err e ↦ (err e, s') | panic ↦ (panic, s') ]

abbrev pub ◌>>◌ {κ} : {S E : Type 0} {B : Type κ} → Run S E (Unit {0}) → Run S E B → Run S E B
m >> k = m >>= λ _. k

module _ {S E : Type 0} where
  abbrev pub pure {ℓ} : {A : Type ℓ} → A → Run S E A
  pure a s = (ok a, s)

  -- A computation that does not touch the state.
  abbrev pub lift {ℓ} : {A : Type ℓ} → Outcome E A → Run S E A
  lift r s = (r, s)

  -- `.unwrap()` on the result of a call.
  abbrev pub unwrapped {ℓ} : {A : Type ℓ} → Run S E A → Run S E A
  unwrapped m s = let (r, s') = m s in (Prelude.unwrap r, s')

  -- The part of a chain behind its first one.
  abbrev pub next : {A B : Type 0} → (A → Run S E B) → Outcome E A × S → Outcome E B × S
  next f x = elim x.0 [ ok a ↦ f a x.1 | err e ↦ (err e, x.1) | panic ↦ (panic, x.1) ]

  -- A chain that succeeds has a first part that succeeds.
  pub run_ok :
      {A B : Type 0} (m : Run S E A) (f : A → Run S E B) (s s' : S) (b : B)
      → (m >>= f) s ≡ (ok b, s')
      → (a : A) × ((t : S) × ((m s ≡ (ok a, t)) × (f a t ≡ (ok b, s'))))
  run_ok {A} {B} m f s s' b e = go (m s).0 (m s).1 refl
    where
      go :
          (r : Outcome E A) (t : S)
          → m s ≡ (r, t)
          → (a : A) × ((t : S) × ((m s ≡ (ok a, t)) × (f a t ≡ (ok b, s'))))
      go (ok a) t first = (a, (t, (first, sym (ap (next f) first) ∙ e)))
      go (err x) t first = absurd (ground (arith, sym (ap (next f) first) ∙ e))
      go panic t first = absurd (ground (arith, sym (ap (next f) first) ∙ e))

  -- What a chain returns that ends in a value made of the last result.
  pub then_pure :
      {A B : Type 0} (m : Run S E A) (f : A → B) (s s' : S) (b : B)
      → (m >>= λ a. pure (f a)) s ≡ (ok b, s')
      → (a : A) × (b ≡ f a)
  then_pure m f s s' b e =
      let (a, (t, (first, last))) = run_ok m (λ a. pure (f a)) s s' b e in (a, ground (arith, last))

  -- A chain goes on from the value and the state of its first part, or stops at its error.
  pub run_on :
      {A B : Type 0} (m : Run S E A) (f : A → Run S E B) (s t : S) (a : A)
      → m s ≡ (ok a, t)
      → (m >>= f) s ≡ f a t
  run_on m f s t a e = ap (next f) e

  pub run_err :
      {A B : Type 0} (m : Run S E A) (f : A → Run S E B) (s t : S) (x : E)
      → m s ≡ (err x, t)
      → (m >>= f) s ≡ (err x, t)
  run_err m f s t x e = ap (next f) e

  after-result :
      {A B : Type 0} (P : S → Type 0) (r : Outcome E A) (s' : S) (f : A → Run S E B)
      → P s'
      → ((a : A) → P (f a s').1)
      → P (next f (r, s')).1
  after-result P (ok a) s' f before through = through a
  after-result P (err e) s' f before through = before
  after-result P panic s' f before through = before

  -- What the first part of a chain leaves, and what the rest leaves after it, if it goes through.
  pub after-bind :
      {A B : Type 0} (P : S → Type 0) (m : Run S E A) (f : A → Run S E B) (s : S)
      → P (m s).1
      → ((a : A) → P (f a (m s).1).1)
      → P ((m >>= f) s).1
  after-bind P m f s before through = after-result P (m s).0 (m s).1 f before through
