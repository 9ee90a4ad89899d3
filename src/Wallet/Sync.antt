-- ===== src/Wallet/Sync.antt =====
-- The wallet's last synchronised block (`create_or_update_last_onchain_wallet_sync` of
-- senseicore/src/database.rs).
use sensei.Prelude.{
  panic, ◌≡◌, refl, ap, ◌∙◌, none, some, [], ◌∷◌, ◌++◌, Text, ok, find, any, arith, false,
  =text_iff, if◌then◌else◌,
}
use sensei.Sql.Laws.{any-find, find-append}
use sensei.Wallet.Types.{WalletDatabase, Stored, IsUp, LastSync, KvRow}
use sensei.Wallet.Store.{read, write, insert_kv_store}
use sensei.Wallet.Queries.{by_key, get_value, set_value}
use sensei.Wallet.Blocks.{create_or_update_last_onchain_wallet_sync, last_onchain_wallet_sync}
use sensei.Wallet.Types.{BlockTime}
use sensei.Wallet.Operations.{last_sync_key, set_sync_time}
use sensei.Wallet.Reads.{get_sync_time}

module _ (w : WalletDatabase) (up : IsUp w) where
  get_value_lem :
      (key : Text) (st : Stored) → get_value w key st ≡ (ok (find (by_key w key) st.kv_store), st)
  unfolding get_value
  get_value_lem key st = ap (λ r. read r st) (up.kv_law.one_lem _ st.kv_store)

  pub kept :
      (entry : KvRow) (s later : LastSync) (st : Stored)
      → find (by_key w (last_onchain_wallet_sync w)) st.kv_store ≡ some entry
      → w.last_sync_codec.decode entry.v ≡ some s
      → create_or_update_last_onchain_wallet_sync w later st ≡ (ok s, st)
  unfolding create_or_update_last_onchain_wallet_sync
  kept entry s later st found decoded =
      ground (arith, get_value_lem (last_onchain_wallet_sync w) st, found, decoded)

  abbrev pub entry_of : LastSync → KvRow
  entry_of s = record {
    node_id = w.node_id;
    k = last_onchain_wallet_sync w;
    v = w.last_sync_codec.encode s;
  }

  pub stored :
      (s : LastSync) (st : Stored)
      → find (by_key w (last_onchain_wallet_sync w)) st.kv_store ≡ none
      → create_or_update_last_onchain_wallet_sync w s st
        ≡ (ok s, record st { kv_store = st.kv_store ++ entry_of s ∷ [] })
  unfolding create_or_update_last_onchain_wallet_sync set_value insert_kv_store
  stored s st missing =
      let free : any (by_key w (last_onchain_wallet_sync w)) st.kv_store ≡ false =
        any-find (by_key w (last_onchain_wallet_sync w)) st.kv_store ∙ (rw missing) in
      let law : w.kv_store.insert (entry_of s) st.kv_store ≡ ok (st.kv_store ++ entry_of s ∷ []) =
        up.kv_law.insert_lem (entry_of s) st.kv_store ∙ (rw (free, if◌then◌else◌)) in
      let written = ap (λ r. write r (λ rows. record st { kv_store = rows }) st) law in
      ground (arith, get_value_lem (last_onchain_wallet_sync w) st, missing, written)

  -- Where the tables hold no synchronised block: the first call stores its block and returns it, and
  -- another call after it leaves the tables as they are and returns the first block again.
  create_or_update_last_onchain_wallet_sync-keeps :
      (first later : LastSync) (st : Stored)
      → find (by_key w (last_onchain_wallet_sync w)) st.kv_store ≡ none
      → let (r, st') = create_or_update_last_onchain_wallet_sync w first st in
        (r ≡ ok first) × (create_or_update_last_onchain_wallet_sync w later st' ≡ (ok first, st'))
  create_or_update_last_onchain_wallet_sync-keeps first later st missing =
      let key = by_key w (last_onchain_wallet_sync w) in
      let found : find key (st.kv_store ++ entry_of first ∷ []) ≡ some (entry_of first) = ground (
        arith,
        find-append key st.kv_store (entry_of first),
        =text_iff w.node_id w.node_id,
        =text_iff (last_onchain_wallet_sync w) (last_onchain_wallet_sync w),
      ) in
      rw (stored first st missing) (
        refl,
        kept (entry_of first) first later
            (record st { kv_store = st.kv_store ++ entry_of first ∷ [] }) found
            (up.last_sync_law.decode-encode first),
      )

  sync_time_stored :
      (t : BlockTime) (st : Stored)
      → find (by_key w (last_sync_key w)) st.kv_store ≡ none
      → set_sync_time w t st ≡ (
        ok tt,
        record st {
          kv_store =
              st.kv_store
              ++ record { node_id = w.node_id; k = last_sync_key w; v = w.sync_time_codec.encode t }
                ∷ [];
        },
      )
  unfolding set_sync_time set_value insert_kv_store
  sync_time_stored t st missing =
      let row : KvRow = record {
        node_id = w.node_id;
        k = last_sync_key w;
        v = w.sync_time_codec.encode t;
      } in
      let free : any (by_key w (last_sync_key w)) st.kv_store ≡ false =
        any-find (by_key w (last_sync_key w)) st.kv_store ∙ (rw missing) in
      let law : w.kv_store.insert row st.kv_store ≡ ok (st.kv_store ++ row ∷ []) =
        up.kv_law.insert_lem row st.kv_store ∙ (rw (free, if◌then◌else◌)) in
      let written = ap (λ r. write r (λ rows. record st { kv_store = rows }) st) law in
      ground (arith, get_value_lem (last_sync_key w) st, missing, written)

  -- For a sync time whose encoding is none of a `LastSync`, over tables that hold none yet:
  -- `set_sync_time` succeeds, and `get_sync_time` panics on what it stored.
  pub get_sync_time-set_sync_time :
      (t : BlockTime) (st : Stored)
      → w.last_sync_codec.decode (w.sync_time_codec.encode t) ≡ none
      → find (by_key w (last_sync_key w)) st.kv_store ≡ none
      → let (r, st') = set_sync_time w t st in (r ≡ ok tt) × ((get_sync_time w st').0 ≡ panic)
  get_sync_time-set_sync_time t st unreadable missing =
      let row : KvRow = record {
        node_id = w.node_id;
        k = last_sync_key w;
        v = w.sync_time_codec.encode t;
      } in
      let key = by_key w (last_sync_key w) in
      let found : find key (st.kv_store ++ row ∷ []) ≡ some row = ground (
        arith,
        find-append key st.kv_store row,
        =text_iff w.node_id w.node_id,
        =text_iff (last_sync_key w) (last_sync_key w),
      ) in
      let st' = record st { kv_store = st.kv_store ++ row ∷ [] } in
      rw (sync_time_stored t st missing) (
        refl,
        unfold get_sync_time in
            (ground (arith, get_value_lem (last_sync_key w) st', found, unreadable)),
      )
