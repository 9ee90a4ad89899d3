-- ===== src/Persist/Store.antt =====
-- The store in the database, and what a store promises.
use sensei.Prelude.{
  ◌≡◌, Option, none, some, List, [], ◌∷◌, ◌++◌, map, Text, ◌=text◌, Outcome, ok, err, panic,
  if◌then◌else◌, length, drop, ℕ, zero, suc,
}
use mathlib.Core.Option
use sensei.Sql.{Table, DbErr}
use sensei.Wallet.Types.{KvRow}
use sensei.Values.{get_value, set_value, list_keys}
use sensei.Paging.{starts_with}
use sensei.Text.{codes}
use sensei.Persist.{KvStore, StoreError, failed}

-- `full_key.replace(from, "")`: each occurrence, from the left, for a text that is not empty. The first
-- argument counts the bytes of an occurrence that are still to be left out.
unfoldable pub remove_all : ℕ → Text → Text → Text
remove_all skip from [] = []
remove_all (suc skip) from (c ∷ cs) = remove_all skip from cs
remove_all zero from (c ∷ cs) =
    let on = c ∷ remove_all zero from cs in
    let out = remove_all (length (drop 1 from)) from cs in
    if starts_with from (c ∷ cs) then out else on

-- The error of the database becomes one of the store.
abbrev pub io {ℓ} : {A : Type ℓ} → Outcome DbErr A → Outcome StoreError A
io (ok a) = ok a
io (err e) = err failed
io panic = panic

-- `DatabaseStore`
module _ (t : Table KvRow) (node_id : Text) where
  unfoldable pub database_store : KvStore (List KvRow)
  database_store = record {
    read = λ key rows. elim (io (get_value t node_id key rows).0) [
      | ok found ↦ ok (Option.map (λ (r : KvRow). r.v) found)
      | err e ↦ err e
      | panic ↦ panic
    ];
    list = λ key rows. elim (io (list_keys t node_id key rows).0) [
      | ok full_keys ↦ ok (map (remove_all 0 (key ++ codes "/")) full_keys)
      | err e ↦ err e
      | panic ↦ panic
    ];
    persist =
        λ key value rows. let (r, rows') = set_value t node_id key value rows in (io r, rows');
  }

-- Where the files of the node are kept: `FilesystemPersister` and `std::fs`, by their paths under its
-- directory. `read_dir` has none for a directory that is not there.
pub record Files (S : Type 0) : Type 0 where
  pub persist_file : Text → Text → S → Outcome StoreError (Unit {0}) × S
  pub read_file : Text → S → Outcome StoreError Text
  pub read_dir : Text → S → Option (Outcome StoreError (List Text))

-- `FileStore`
unfoldable pub file_store : {S : Type 0} → Files S → KvStore S
file_store files = record {
  read = λ key s. elim (files.read_file key s) [
    | ok contents ↦ ok (some contents)
    | err e ↦ ok none
    | panic ↦ panic
  ];
  list = λ key s. elim (files.read_dir key s) [
    | none ↦ ok []
    | some r ↦ elim r [ ok names ↦ ok names | err e ↦ panic | panic ↦ panic ]
  ];
  persist = files.persist_file;
}

-- `AnyKVStore`: one of the two, over both states.
pub data AnyKvStore (S : Type 0) : Type 0 where
  file : Files S → AnyKvStore S
  database : Table KvRow → Text → AnyKvStore S

unfoldable pub any_store : {S : Type 0} → AnyKvStore S → KvStore (S × List KvRow)
unfolding file_store database_store
any_store (file files) = record {
  read = λ key s. (file_store files).read key s.0;
  list = λ key s. (file_store files).list key s.0;
  persist = λ key value s. let (r, s') = (file_store files).persist key value s.0 in (r, (s', s.1));
}
any_store (database t node_id) = record {
  read = λ key s. (database_store t node_id).read key s.1;
  list = λ key s. (database_store t node_id).list key s.1;
  persist = λ key value s.
      let (r, rows) = (database_store t node_id).persist key value s.1 in (r, (s.0, rows));
}

-- What is persisted is read back, and every other key as before.
pub record IsKvStore {S : Type 0} (store : KvStore S) : Type 0 where
  pub persist_lem : (key value : Text) (s : S) → (store.persist key value s).0 ≡ ok tt
  pub read-persist :
      (key value other : Text) (s : S)
      → store.read other (store.persist key value s).1
        ≡ (if key =text other then ok (some value) else store.read other s)
