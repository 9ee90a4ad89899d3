-- ===== src/Values.antt =====
-- The key-value store in the database: entity/src/kv_store.rs and its queries in
-- senseicore/src/database.rs.
use sensei.Prelude.{
  Bool, ◌&&◌, Option, none, some, List, map, Text, ◌=text◌, Outcome, ok, err, panic,
}
use mathlib.Core.Option
use sensei.Text.{codes}
use sensei.Sql.{Table, DbErr}
use sensei.State.{Run, ◌>>=◌, pure}
use sensei.Paging.{starts_with}
use sensei.Wallet.Types.{KvRow}

abbrev pub Values {ℓ} : Type ℓ → Type ℓ
Values A = Run (List KvRow) DbErr A

abbrev pub of_key : Text → Text → KvRow → Bool
of_key node_id key r = (r.node_id =text node_id) && (r.k =text key)

abbrev pub kept : Outcome DbErr (List KvRow) → Values (Unit {0})
kept (ok rows) old = (ok tt, rows)
kept (err e) old = (err e, old)
kept panic old = (panic, old)

module _ (t : Table KvRow) where
  unfoldable pub get_value : Text → Text → Values (Option KvRow)
  get_value node_id key rows = (t.one (of_key node_id key) rows, rows)

  unfoldable pub list_values : Text → Text → Values (List KvRow)
  list_values node_id key_prefix rows =
      (t.all (λ r. (r.node_id =text node_id) && starts_with key_prefix r.k) rows, rows)

  unfoldable pub list_keys : Text → Text → Values (List Text)
  list_keys node_id key_prefix = do
    entries ← list_values node_id key_prefix
    pure (map (λ (r : KvRow). r.k) entries)

  unfoldable pub create_value : Text → Text → Text → Values (Unit {0})
  create_value node_id key value rows =
      kept (t.insert (record { node_id = node_id; k = key; v = value }) rows) rows

  unfoldable pub set_value : Text → Text → Text → Values (Unit {0})
  set_value node_id key value = do
    found ← get_value node_id key
    elim found [
      | some entry ↦ (λ rows. kept (t.update (record entry { v = value }) rows) rows)
      | none ↦ create_value node_id key value
    ]

  unfoldable pub get_seed : Text → Values (Option Text)
  get_seed node_id = do
    found ← get_value node_id (codes "seed")
    pure (Option.map (λ (r : KvRow). r.v) found)

  unfoldable pub set_seed : Text → Text → Values (Unit {0})
  set_seed node_id seed = set_value node_id (codes "seed") seed

  unfoldable pub create_seed : Text → Text → Values (Unit {0})
  create_seed node_id seed = create_value node_id (codes "seed") seed
