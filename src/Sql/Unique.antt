-- ===== src/Sql/Unique.antt =====
-- A unique index, as an invariant of the rows: no two of them have the same key.
use sensei.Prelude.{
  ◌≡◌, Bool, true, false, List, [], ◌∷◌, ◌++◌, any, All, arith, Bool-cases, inl, inr, if◌then◌else◌,
  select,
}
use sensei.Sql.Laws.{put, select-All}

-- `same` compares keys.
pub record IsKey {Row : Type 0} (same : Row → Row → Bool) : Type 0 where
  pub symmetric : (a b : Row) → same a b ≡ same b a
  pub joins : (a b c : Row) → same a b ≡ true → same a c ≡ true → same c b ≡ true

module _ {Row : Type 0} (same : Row → Row → Bool) where
  abbrev pub HasUniqueKeys : List Row → Type 0
  HasUniqueKeys [] = Unit
  HasUniqueKeys (x ∷ rows) = All (λ y. same y x ≡ false) rows × HasUniqueKeys rows

  snoc-All :
      (x r : Row) (rows : List Row)
      → All (λ y. same y x ≡ false) rows
      → same r x ≡ false
      → All (λ y. same y x ≡ false) (rows ++ r ∷ [])
  snoc-All x r [] h e = (e, tt)
  snoc-All x r (y ∷ rows) h e = (h.0, snoc-All x r rows h.1 e)

  -- A row with a new key can go in.
  pub snoc-HasUniqueKeys :
      (r : Row) (rows : List Row)
      → HasUniqueKeys rows
      → any (same r) rows ≡ false
      → HasUniqueKeys (rows ++ r ∷ [])
  snoc-HasUniqueKeys r [] h e = (tt, tt)
  snoc-HasUniqueKeys r (x ∷ rows) h e =
      (snoc-All x r rows h.0 (ground arith), snoc-HasUniqueKeys r rows h.1 (ground arith))

  module _ (law : IsKey same) (row : Row) where
    put-All :
        (x : Row) (rows : List Row)
        → All (λ y. same y x ≡ false) rows
        → All (λ y. same y (if same row x then row else x) ≡ false) (put (same row) row rows)
    put-All x [] h = tt
    put-All x (y ∷ rows) h =
        (ground (arith, h.0, law.symmetric row y, law.joins row x y), put-All x rows h.1)

    -- A row can be put in the place of the one that has its key.
    pub put-HasUniqueKeys :
        (rows : List Row) → HasUniqueKeys rows → HasUniqueKeys (put (same row) row rows)
    put-HasUniqueKeys [] h = tt
    put-HasUniqueKeys (x ∷ rows) h = (put-All x rows h.0, put-HasUniqueKeys rows h.1)

-- What every row has, the rows have after a row that has it was put in.
pub put-holds :
    {Row : Type 0} (P : Row → Type 0) (key : Row → Bool) (row : Row) (rows : List Row)
    → P row
    → All P rows
    → All P (put key row rows)
put-holds P key row [] p h = tt
put-holds P key row (x ∷ rows) p h = (one (key x) h.0, put-holds P key row rows p h.1)
  where
    one : (b : Bool) → P x → P (if b then row else x)
    one true old = p
    one false old = old

module _ {Row : Type 0} (same : Row → Row → Bool) where
  pub select-HasUniqueKeys :
      (p : Row → Bool) (rows : List Row)
      → HasUniqueKeys same rows
      → HasUniqueKeys same (select p rows)
  select-HasUniqueKeys p [] h = tt
  select-HasUniqueKeys p (x ∷ rows) h = elim (Bool-cases (p x)) [
    | inl e ↦
        rw (e, select)
          (select-All (λ y. same y x ≡ false) p rows h.0, select-HasUniqueKeys p rows h.1)
    | inr e ↦ rw (e, select) (select-HasUniqueKeys p rows h.1)
  ]
