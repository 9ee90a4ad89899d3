-- ===== src/Sql.antt =====
-- What the program relies on of the database behind sea-orm (entity/src/*.rs, migration/src/*.rs):
-- one interface for a table, over the rows that the table holds, in the order of their insertion.
-- The uuid in the column `id` and the two timestamps are left out; a row is addressed by the
-- columns of the unique index that its migration makes (`same`).
pub mod Laws
pub mod Unique
pub mod Keyed
use sensei.Prelude.{
  ◌≡◌, Bool, not, ◌&&◌, Option, List, [], ◌∷◌, ◌++◌, map, if◌then◌else◌, Outcome, ok, err, find,
  any, select,
}

-- `sea_orm::DbErr`.
pub data DbErr : Type 0 where
  db_err : DbErr

-- The queries: `.one`, `.all`, `.insert`, `.update`, `.delete` and deletion by a filter; those that write return the rows
-- that the table holds afterwards.
pub record Table (Row : Type 0) : Type 0 where
  pub one : (Row → Bool) → List Row → Outcome DbErr (Option Row)
  pub all : (Row → Bool) → List Row → Outcome DbErr (List Row)
  pub insert : Row → List Row → Outcome DbErr (List Row)
  pub update : Row → List Row → Outcome DbErr (List Row)
  pub delete : Row → List Row → Outcome DbErr (List Row)
  pub delete_many : (Row → Bool) → List Row → Outcome DbErr (List Row)

-- A database that is up. `unique` says whether the table has a unique index.
pub record IsTable {Row : Type 0} (same : Row → Row → Bool) (unique : Bool) (t : Table Row)
    : Type 0 where
  pub one_lem : (p : Row → Bool) (rows : List Row) → t.one p rows ≡ ok (find p rows)
  pub all_lem : (p : Row → Bool) (rows : List Row) → t.all p rows ≡ ok (select p rows)
  pub insert_lem :
      (r : Row) (rows : List Row)
      → t.insert r rows ≡ (if unique && any (same r) rows then err db_err else ok (rows ++ r ∷ []))
  pub update_lem :
      (r : Row) (rows : List Row)
      → t.update r rows
        ≡ (if any (same r) rows then ok (map (λ x. if same r x then r else x) rows) else err db_err)
  pub delete_lem :
      (r : Row) (rows : List Row) → t.delete r rows ≡ ok (select (λ x. not (same r x)) rows)
  pub delete_many_lem :
      (p : Row → Bool) (rows : List Row) → t.delete_many p rows ≡ ok (select (λ x. not (p x)) rows)

-- A table that is a list in memory, for the tests.
abbrev pub list_table : {Row : Type 0} → (Row → Row → Bool) → Bool → Table Row
list_table same unique = record {
  one = λ p rows. ok (find p rows);
  all = λ p rows. ok (select p rows);
  insert = λ r rows. if unique && any (same r) rows then err db_err else ok (rows ++ r ∷ []);
  update = λ r rows.
      if any (same r) rows then ok (map (λ x. if same r x then r else x) rows) else err db_err;
  delete = λ r rows. ok (select (λ x. not (same r x)) rows);
  delete_many = λ p rows. ok (select (λ x. not (p x)) rows);
}
