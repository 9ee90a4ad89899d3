-- ===== src/Wallet/Queries.antt =====
-- senseicore/src/chain/database.rs, lines 454 to 640: the lookups of the wallet.
use mathlib.Core.List.{reverse}
use sensei.Prelude.{
  ℕ, Bool, true, ◌&&◌, Option, none, some, List, [], ◌∷◌, Text, ◌==◌, ◌=text◌, Outcome, ok, err,
  panic, expect_some,
}
use sensei.Codec.{unhexed}
use sensei.Sql.{DbErr, db_err}
use sensei.Prelude.{if◌then◌else◌}
use sensei.Wallet.Types.{
  has_checksum, Transaction, WalletDatabase, UtxoRow, TransactionRow, ScriptPubkeyRow, KeychainRow,
  KvRow, LocalUtxo, TransactionDetails,
}
use sensei.Wallet.Store.{
  Action, Error, json, encode, ◌>>=◌, pure, lift, unwrapped, read, update_kv_store, insert_kv_store,
}

-- A column that may be NULL, decoded with an `unwrap`.
abbrev pub decoded : {A : Type 0} → (Text → Option A) → Option Text → Outcome Error (Option A)
decoded decode none = ok none
decoded decode (some column) = elim (decode column) [ none ↦ panic | some a ↦ ok (some a) ]

-- `collect()` of an iterator of results.
unfoldable pub collect : {A B : Type 0} → (A → Action B) → List A → Action (List B)
collect f [] = pure []
collect f (x ∷ xs) = do b ← f x; bs ← collect f xs; pure (b ∷ bs)

-- The one filter that does not ask for the node.
abbrev pub by_outpoint : Text → ℕ → UtxoRow → Bool
by_outpoint txid vout r = (r.txid =text txid) && (r.vout == vout)

-- `filter_map` on the column.
abbrev pub kept_raw : List TransactionRow → List Text
kept_raw [] = []
kept_raw (r ∷ rows) =
    let rest = kept_raw rows in elim r.raw_tx [ none ↦ rest | some raw_tx ↦ raw_tx ∷ rest ]

module _ (w : WalletDatabase) where
  abbrev pub by_key : Text → KvRow → Bool
  by_key key r = (r.node_id =text w.node_id) && (r.k =text key)

  abbrev pub by_path : Text → ℕ → ScriptPubkeyRow → Bool
  by_path keychain child r =
      (r.node_id =text w.node_id) && ((r.keychain =text keychain) && (r.child == child))

  abbrev pub by_script : Text → ScriptPubkeyRow → Bool
  by_script script r = (r.node_id =text w.node_id) && (r.script =text script)

  abbrev pub by_txid : Text → TransactionRow → Bool
  by_txid txid r = (r.node_id =text w.node_id) && (r.txid =text txid)

  abbrev pub by_keychain : Text → KeychainRow → Bool
  by_keychain keychain r = (r.node_id =text w.node_id) && (r.keychain =text keychain)

  unfoldable pub get_value : Text → Action (Option KvRow)
  get_value key st = read (w.kv_store.one (by_key key) st.kv_store) st

  unfoldable pub set_value : Text → Text → Action (Unit {0})
  unfolding get_value update_kv_store insert_kv_store
  set_value key value = do
    entry ← get_value key
    elim entry [
      | some entity ↦ update_kv_store w (record entity { v = value })
      | none ↦ insert_kv_store w (record { node_id = w.node_id; k = key; v = value })
    ]

  -- `utxo::Model::to_local_utxo`
  unfoldable pub to_local_utxo : UtxoRow → Outcome Error LocalUtxo
  to_local_utxo r = elim (unhexed w.txid_codec encode r.txid) [
    | err e ↦ err e
    | panic ↦ panic
    | ok txid ↦ elim (unhexed w.script_codec encode r.script) [
      | err e ↦ err e
      | panic ↦ panic
      | ok script ↦ elim (w.keychain_codec.decode r.keychain) [
        | none ↦ err json
        | some keychain ↦ ok (record {
          outpoint = record { txid = txid; vout = r.vout };
          txout = record { value = r.value; script_pubkey = script };
          keychain = keychain;
          is_spent = r.is_spent;
        })
      ]
    ]
  ]

  -- `transaction::Model::to_transaction_details`
  unfoldable pub to_transaction_details : TransactionRow → Action TransactionDetails
  to_transaction_details r = do
    confirmation_time ← lift (decoded w.block_time_codec.decode r.confirmation_time)
    transaction ← lift (decoded w.tx_codec.decode r.raw_tx)
    txid ← lift (unhexed w.txid_codec encode r.txid)
    received ← lift (expect_some r.received)
    sent ← lift (expect_some r.sent)
    pure (record {
      transaction = transaction;
      txid = txid;
      received = received;
      sent = sent;
      fee = r.fee;
      confirmation_time = confirmation_time;
    })

  unfoldable pub get_utxos : Action (List LocalUtxo)
  unfolding collect to_local_utxo
  get_utxos st =
      (do
        rows ← read (w.utxo.all (λ r. r.node_id =text w.node_id) st.utxos)
        collect (λ r. lift (to_local_utxo r)) rows)
        st

  -- Newest first.
  unfoldable pub get_transactions : Action (List TransactionDetails)
  unfolding collect to_transaction_details
  get_transactions st =
      (do
        rows ← read (w.transaction.all (λ r. r.node_id =text w.node_id) st.transactions)
        collect to_transaction_details (reverse rows))
        st

  -- The transactions that a row keeps, newest first.
  unfoldable pub get_raw_transactions : Action (List Transaction)
  unfolding collect
  get_raw_transactions st =
      (do
        rows ← read (w.transaction.all (λ r. r.node_id =text w.node_id) st.transactions)
        collect (λ raw_tx. lift (expect_some (w.tx_codec.decode raw_tx))) (kept_raw (reverse rows)))
        st

  unfoldable pub get_script_pubkeys : Option Text → Action (List Text)
  unfolding collect
  get_script_pubkeys keychain st =
      (do
        rows ← read (
            w.script_pubkey.all
              (λ r.
                (r.node_id =text w.node_id)
                && elim keychain [ none ↦ true | some k ↦ r.keychain =text k ])
              st.script_pubkeys)
        collect (λ r. unwrapped (lift (unhexed w.script_codec encode r.script))) rows)
        st

  unfoldable pub get_script_pubkey_by_path : Text → ℕ → Action (Option ScriptPubkeyRow)
  get_script_pubkey_by_path keychain child st =
      read (w.script_pubkey.one (by_path keychain child) st.script_pubkeys) st

  unfoldable pub get_script_pubkey_by_script : Text → Action (Option ScriptPubkeyRow)
  get_script_pubkey_by_script script st =
      read (w.script_pubkey.one (by_script script) st.script_pubkeys) st

  unfoldable pub get_utxo : Text → ℕ → Action (Option UtxoRow)
  get_utxo txid vout st = read (w.utxo.one (by_outpoint txid vout) st.utxos) st

  unfoldable pub get_transaction : Text → Action (Option TransactionRow)
  get_transaction txid st = read (w.transaction.one (by_txid txid) st.transactions) st

  -- A row without a checksum cannot be decoded as the model.
  abbrev pub decoded_keychain :
      Outcome DbErr (Option KeychainRow) → Outcome DbErr (Option KeychainRow)
  decoded_keychain (ok (some row)) = if has_checksum row then ok (some row) else err db_err
  decoded_keychain found = found

  unfoldable pub get_keychain : Text → Action (Option KeychainRow)
  get_keychain keychain st =
      read (decoded_keychain (w.keychain.one (by_keychain keychain) st.keychains)) st
