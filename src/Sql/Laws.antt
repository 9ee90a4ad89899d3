-- ===== src/Sql/Laws.antt =====
-- How a lookup sees the rows that a write leaves, for a table whose rows are found by a key.
use sensei.Prelude.{
  ◌≡◌, refl, ap, ◌∙◌, Bool, true, false, not, none, some, List, [], ◌∷◌, ◌++◌, map, if◌then◌else◌,
  find, any, select, arith, Bool-cases, inl, inr, ok, All,
}
use sensei.Sql.{Table, IsTable, list_table}

pub list_table-IsTable :
    {Row : Type 0} (same : Row → Row → Bool) (unique : Bool)
    → IsTable same unique (list_table same unique)
list_table-IsTable same unique = record {
  one_lem = λ p rows. refl;
  all_lem = λ p rows. refl;
  insert_lem = λ r rows. refl;
  update_lem = λ r rows. refl;
  delete_lem = λ r rows. refl;
  delete_many_lem = λ p rows. refl;
}

module _ {Row : Type 0} where
  pub find-append :
      (p : Row → Bool) (rows : List Row) (r : Row)
      → find p (rows ++ r ∷ [])
        ≡ elim (find p rows) [ some x ↦ some x | none ↦ if p r then some r else none ]
  find-append p [] r = refl
  find-append p (x ∷ rows) r = ground (arith, find-append p rows r)

  pub any-find :
      (p : Row → Bool) (rows : List Row)
      → any p rows ≡ elim (find p rows) [ some x ↦ true | none ↦ false ]
  any-find p [] = refl
  any-find p (x ∷ rows) = ground (arith, any-find p rows)

  pub find_sound : (p : Row → Bool) (rows : List Row) (r : Row) → find p rows ≡ some r → p r ≡ true
  find_sound p [] r e = absurd (ground arith)
  find_sound p (x ∷ rows) r e = ground (arith, find_sound p rows r)

  pub find-All {κ} :
      (P : Row → Type κ) (p : Row → Bool) (rows : List Row) (r : Row)
      → All P rows
      → find p rows ≡ some r
      → P r
  find-All P p [] r h e = absurd (ground arith)
  find-All P p (x ∷ rows) r h e = elim (Bool-cases (p x)) [
    | inl hit ↦ (let same : x ≡ r = ground arith in rw (← same) h.0)
    | inr miss ↦ find-All P p rows r h.1 (ground arith)
  ]

  -- What a deletion leaves is found as before, unless the lookup asks for what was deleted.
  pub find-select_apart :
      (p q : Row → Bool) (rows : List Row)
      → ((x : Row) → p x ≡ true → q x ≡ false)
      → find p (select (λ x. not (q x)) rows) ≡ find p rows
  find-select_apart p q [] apart = refl
  find-select_apart p q (x ∷ rows) apart = ground (arith, apart x, find-select_apart p q rows apart)

  pub find-select_self :
      (p q : Row → Bool) (rows : List Row)
      → ((x : Row) → p x ≡ true → q x ≡ true)
      → find p (select (λ x. not (q x)) rows) ≡ none
  find-select_self p q [] same = refl
  find-select_self p q (x ∷ rows) same = ground (arith, same x, find-select_self p q rows same)

  pub select-All {κ} :
      (P : Row → Type κ) (p : Row → Bool) (rows : List Row) → All P rows → All P (select p rows)
  select-All P p [] h = tt
  select-All P p (x ∷ rows) h = ground (arith, select-All P p rows h.1)

  pub All-snoc {κ} :
      (P : Row → Type κ) (rows : List Row) (r : Row) → All P rows → P r → All P (rows ++ r ∷ [])
  All-snoc P [] r h k = (k, tt)
  All-snoc P (x ∷ rows) r h k = (h.0, All-snoc P rows r h.1 k)

  pub select_missing :
      (q : Row → Bool) (rows : List Row) → find q rows ≡ none → select (λ x. not (q x)) rows ≡ rows
  select_missing q [] missing = refl
  select_missing q (x ∷ rows) missing = ground (arith, select_missing q rows)

  -- Putting one row in the place of the rows of a key.
  abbrev pub put : (Row → Bool) → Row → List Row → List Row
  put key row = map λ x. if key x then row else x

  pub update_key :
      (same : Row → Row → Bool) (unique : Bool) (t : Table Row) (key : Row → Bool) (old row : Row)
      (rows : List Row)
      → IsTable same unique t
      → find key rows ≡ some old
      → same row ≡ key
      → t.update row rows ≡ ok (put key row rows)
  update_key same unique t key old row rows law found e =
      let present : any (same row) rows ≡ true =
        ap (λ p. any p rows) e ∙ any-find key rows ∙ (rw found) in
      law.update_lem row rows ∙ (rw (present, if◌then◌else◌)) ∙ ap (λ p. ok (put p row rows)) e

  pub find-put :
      (key : Row → Bool) (row : Row) (rows : List Row)
      → key row ≡ true
      → find key (put key row rows) ≡ elim (find key rows) [ some _ ↦ some row | none ↦ none ]
  find-put key row [] hit = refl
  find-put key row (x ∷ rows) hit = ground (arith, find-put key row rows hit)

  pub find-put_apart :
      (p key : Row → Bool) (row : Row) (rows : List Row)
      → p row ≡ false
      → ((x : Row) → key x ≡ true → p x ≡ false)
      → find p (put key row rows) ≡ find p rows
  find-put_apart p key row [] miss apart = refl
  find-put_apart p key row (x ∷ rows) miss apart =
      ground (arith, apart x, find-put_apart p key row rows miss apart)

  -- The rows that pass a test are the same after a write of a row that does not.
  pub select-append_apart :
      (p : Row → Bool) (r : Row) (rows : List Row)
      → p r ≡ false
      → select p (rows ++ r ∷ []) ≡ select p rows
  select-append_apart p r [] miss = ground (arith, miss)
  select-append_apart p r (x ∷ rows) miss = ground (arith, select-append_apart p r rows miss)

  pub select-put_apart :
      (p key : Row → Bool) (row : Row) (rows : List Row)
      → p row ≡ false
      → ((x : Row) → key x ≡ true → p x ≡ false)
      → select p (put key row rows) ≡ select p rows
  select-put_apart p key row [] miss apart = refl
  select-put_apart p key row (x ∷ rows) miss apart =
      ground (arith, miss, apart x, select-put_apart p key row rows miss apart)
