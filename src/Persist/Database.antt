-- ===== src/Persist/Database.antt =====
-- The store in the database keeps the promise of a store.
use sensei.Prelude.{
  ◌≡◌, refl, ap, ◌∙◌, true, false, some, List, [], ◌∷◌, ◌++◌, Text, ◌=text◌, =text_iff, ok, find,
  any, arith, Option-cases, inl, inr, if◌then◌else◌,
}
use sensei.Sql.{Table, IsTable}
use sensei.Sql.Laws.{put, any-find, find_sound, update_key}
use sensei.Sql.Keyed.{find-put_key, find-append_key}
use sensei.Wallet.Types.{KvRow, same_kv}
use sensei.Values.{of_key, get_value, create_value, set_value}
use sensei.Persist.Store.{database_store, IsKvStore}

module _ (t : Table KvRow) (node_id : Text) (law : IsTable same_kv true t) where
  of_key_apart :
      (h k : Text) (r : KvRow)
      → (h =text k) ≡ false
      → of_key node_id h r ≡ true
      → of_key node_id k r ≡ false
  of_key_apart h k r e hit = ground (arith, =text_iff h k, =text_iff r.k h, =text_iff r.k k)

  same_kv-of_key :
      (key : Text) (r : KvRow) → of_key node_id key r ≡ true → same_kv r ≡ of_key node_id key
  same_kv-of_key key r hit =
      let same_node : r.node_id ≡ node_id = ground (arith, =text_iff r.node_id node_id) in
      let same_key : r.k ≡ key = ground (arith, =text_iff r.k key) in
      λ i. of_key (same_node i) (same_key i)

  -- A value that is set is there, under its key only.
  pub set_value-find :
      (key value other : Text) (rows : List KvRow)
      → (row : KvRow) × (row.v ≡ value)
        × ((set_value t node_id key value rows).0 ≡ ok tt)
        × (find (of_key node_id other) (set_value t node_id key value rows).1
            ≡ (if key =text other then some row else find (of_key node_id other) rows))
  unfolding set_value get_value create_value
  set_value-find key value other rows =
      let look = law.one_lem (of_key node_id key) rows in
      elim (Option-cases (find (of_key node_id key) rows)) [
        | inl e ↦
            let row : KvRow = record { node_id = node_id; k = key; v = value } in
            let own : of_key node_id key row ≡ true =
              ground (arith, =text_iff node_id node_id, =text_iff key key) in
            let fresh : any (same_kv row) rows ≡ false =
              ap (λ q. any q rows) (same_kv-of_key key row own)
              ∙ any-find (of_key node_id key) rows
              ∙ (rw e refl) in
            let run : set_value t node_id key value rows ≡ (ok tt, rows ++ row ∷ []) =
              ground (arith, look, e, law.insert_lem row rows, fresh) in
            (
              row,
              refl,
              rw run refl,
              rw run (find-append_key (of_key node_id) of_key_apart key other row rows e own),
            )
        | inr (r, e) ↦
            let hit = find_sound (of_key node_id key) rows r e in
            let row : KvRow = record r { v = value } in
            let done =
              update_key same_kv true t (of_key node_id key) r row rows law e
                (same_kv-of_key key r hit) in
            let run : set_value t node_id key value rows
                ≡ (ok tt, put (of_key node_id key) row rows) =
              ground (arith, look, e, done) in
            (
              row,
              refl,
              rw run refl,
              rw run (find-put_key (of_key node_id) of_key_apart key other row r rows e hit),
            )
      ]

  pub database_store-IsKvStore : IsKvStore (database_store t node_id)
  unfolding database_store get_value
  database_store-IsKvStore = record {
    persist_lem = λ key value rows.
        let (_, _, done, _) = set_value-find key value key rows in ground (arith, done);
    read-persist = λ key value other rows.
        let (row, same, _, found) = set_value-find key value other rows in
        ground (
          arith,
          same,
          found,
          law.one_lem (of_key node_id other) rows,
          law.one_lem (of_key node_id other) (set_value t node_id key value rows).1,
        );
  }
