-- ===== src/Sql/Keyed.antt =====
-- Rows that are looked up by a text: what is found at each text after one row was put in the place of
-- another, or added.
use sensei.Prelude.{
  ◌≡◌, sym, ap, ◌∙◌, Bool, true, false, none, some, List, [], ◌∷◌, ◌++◌, Text, ◌=text◌, =text_iff,
  find, arith, Bool-cases, inl, inr, if◌then◌else◌,
}
use sensei.Sql.Laws.{put, find-append, find-put, find-put_apart}

-- A row has one key at most.
abbrev pub IsFunctional : {Row : Type 0} → (Text → Row → Bool) → Type 0
IsFunctional {Row} key =
    (h k : Text) (r : Row) → (h =text k) ≡ false → key h r ≡ true → key k r ≡ false

module _ {Row : Type 0} (key : Text → Row → Bool) (one : IsFunctional key) where
  -- Where two texts are the same, so is what is found at them.
  at_same :
      {A : Type 0} (f : Text → A) (h k : Text) (a b : A)
      → f h ≡ a
      → ((h =text k) ≡ false → f k ≡ b)
      → f k ≡ (if h =text k then a else b)
  at_same f h k a b here there = elim (Bool-cases (h =text k)) [
    | inl same ↦ let hk : h ≡ k = ground (arith, =text_iff h k) in rw same (ap f (sym hk) ∙ here)
    | inr apart ↦ rw apart (there apart)
  ]

  pub find-put_key :
      (h k : Text) (row old : Row) (rows : List Row)
      → find (key h) rows ≡ some old
      → key h row ≡ true
      → find (key k) (put (key h) row rows) ≡ (if h =text k then some row else find (key k) rows)
  find-put_key h k row old rows e own =
      at_same (λ j. find (key j) (put (key h) row rows)) h k (some row) (find (key k) rows)
        (find-put (key h) row rows own ∙ ap (λ o. elim o [ some _ ↦ some row | none ↦ none ]) e)
        (λ apart.
          find-put_apart (key k) (key h) row rows (one h k row apart own) (λ x. one h k x apart))

  pub find-append_key :
      (h k : Text) (row : Row) (rows : List Row)
      → find (key h) rows ≡ none
      → key h row ≡ true
      → find (key k) (rows ++ row ∷ []) ≡ (if h =text k then some row else find (key k) rows)
  find-append_key h k row rows e own =
      at_same (λ j. find (key j) (rows ++ row ∷ [])) h k (some row) (find (key k) rows)
        (find-append (key h) rows row ∙ ground (arith, e, own))
        (λ apart. find-append (key k) rows row ∙ ground (arith, one h k row apart own))
