-- ===== src/Maps.antt =====
-- A `HashMap` whose keys are strings, as the list of its entries: a key stands in one entry at most,
-- and the order of the entries is not read.
use sensei.Prelude.{
  ◌≡◌, refl, Option, none, some, List, [], ◌∷◌, Text, ◌=text◌, =text_iff, arith, if◌then◌else◌,
}

module _ {ℓ} {V : Type ℓ} where
  unfoldable pub lookup : Text → List (Text × V) → Option V
  lookup k [] = none
  lookup k ((key, v) ∷ m) = if key =text k then some v else lookup k m

  -- `insert`: over the entry of the key, or as a new one.
  unfoldable pub insert : Text → V → List (Text × V) → List (Text × V)
  insert k v [] = (k, v) ∷ []
  insert k v ((key, old) ∷ m) =
      let rest = insert k v m in if key =text k then (key, v) ∷ m else (key, old) ∷ rest

  unfoldable pub remove : Text → List (Text × V) → List (Text × V)
  remove k [] = []
  remove k ((key, v) ∷ m) = let rest = remove k m in if key =text k then rest else (key, v) ∷ rest

  pub lookup-insert :
      (k other : Text) (v : V) (m : List (Text × V))
      → lookup other (insert k v m) ≡ (if k =text other then some v else lookup other m)
  unfolding lookup insert
  lookup-insert k other v [] = refl
  lookup-insert k other v ((key, old) ∷ m) =
      ground
        (arith, lookup-insert k other v m, =text_iff key k, =text_iff key other, =text_iff k other)

  pub lookup-remove :
      (k other : Text) (m : List (Text × V))
      → lookup other (remove k m) ≡ (if k =text other then none else lookup other m)
  unfolding lookup remove
  lookup-remove k other [] = ground arith
  lookup-remove k other ((key, v) ∷ m) =
      ground
        (arith, lookup-remove k other m, =text_iff key k, =text_iff key other, =text_iff k other)
