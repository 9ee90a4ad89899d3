-- ===== src/Wallet/Operations.antt =====
-- senseicore/src/chain/database.rs, lines 642 to 928: `BatchOperations`, the writes that bdk makes.
use sensei.Prelude.{
  ℕ, Bool, Option, none, some, ◌++◌, Text, Outcome, ok, err, panic, or_err, if◌then◌else◌,
}
use mathlib.Core.Option
use sensei.Text.{codes}
use sensei.Codec.{hexed, unhexed}
use sensei.Wallet.Types.{
  WalletDatabase, OutPoint, LocalUtxo, TransactionDetails, Transaction, BlockTime, KeychainKind,
}
use sensei.Wallet.Store.{
  Action, Error, generic, json, encode, ◌>>=◌, ◌>>◌, pure, lift, to_signed, insert_utxo,
  insert_keychain, insert_script_pubkey, insert_transaction, update_utxo, update_transaction,
  update_script_pubkey, update_keychain, delete_utxo, delete_transaction, delete_script_pubkey,
  delete_kv_store,
}
use sensei.Wallet.Queries.{
  get_value, set_value, get_script_pubkey_by_path, get_script_pubkey_by_script, get_utxo,
  get_transaction, get_keychain, to_transaction_details, decoded,
}

module _ (w : WalletDatabase) where
  -- `serde_json::to_string(&keychain)`
  abbrev pub keychain_column : KeychainKind → Text
  keychain_column k = w.keychain_codec.encode k

  unfoldable pub set_script_pubkey : Text → KeychainKind → ℕ → Action (Unit {0})
  set_script_pubkey script keychain child = do
    child ← lift (to_signed 31 child)
    found ← get_script_pubkey_by_path w (keychain_column keychain) child
    elim found [
      | some row ↦ update_script_pubkey w (record row { script = hexed w.script_codec script })
      | none ↦ insert_script_pubkey w (record {
        node_id = w.node_id;
        keychain = keychain_column keychain;
        child = child;
        script = hexed w.script_codec script;
      })
    ]

  unfoldable pub set_utxo : LocalUtxo → Action (Unit {0})
  set_utxo utxo = do
    value ← lift (to_signed 63 utxo.txout.value)
    vout ← lift (to_signed 31 utxo.outpoint.vout)
    found ← get_utxo w (hexed w.txid_codec utxo.outpoint.txid) vout
    elim found [
      | some row ↦ update_utxo w (record row {
        value = value;
        keychain = keychain_column utxo.keychain;
        script = hexed w.script_codec utxo.txout.script_pubkey;
        is_spent = utxo.is_spent;
      })
      | none ↦ insert_utxo w (record {
        node_id = w.node_id;
        value = value;
        keychain = keychain_column utxo.keychain;
        vout = vout;
        txid = hexed w.txid_codec utxo.outpoint.txid;
        script = hexed w.script_codec utxo.txout.script_pubkey;
        is_spent = utxo.is_spent;
      })
    ]

  -- The new row would leave `txid` unset, which the table does not allow.
  unfoldable pub set_raw_tx : Transaction → Action (Unit {0})
  set_raw_tx tx = do
    found ← get_transaction w (hexed w.txid_codec tx.txid)
    elim found [
      | some row ↦ update_transaction w (record row { raw_tx = some (w.tx_codec.encode tx) })
      | none ↦ lift (err generic)
    ]

  -- `Option<u64>` to `Option<i64>`.
  abbrev signed_fee : Option ℕ → Outcome Error (Option ℕ)
  signed_fee none = ok none
  signed_fee (some fee) = elim (to_signed 63 fee) [
    | ok f ↦ ok (some f)
    | err e ↦ err e
    | panic ↦ panic
  ]

  unfoldable pub set_tx : TransactionDetails → Action (Unit {0})
  set_tx details = do
    received ← lift (to_signed 63 details.received)
    sent ← lift (to_signed 63 details.sent)
    fee ← lift (signed_fee details.fee)
    let confirmation_time = Option.map w.block_time_codec.encode details.confirmation_time
    found ← get_transaction w (hexed w.txid_codec details.txid)
    elim found [
      | some row ↦ update_transaction w (record row {
        received = some received;
        sent = some sent;
        fee = fee;
        confirmation_time = confirmation_time;
      })
      | none ↦ insert_transaction w (record {
        node_id = w.node_id;
        txid = hexed w.txid_codec details.txid;
        raw_tx = Option.map w.tx_codec.encode details.transaction;
        received = some received;
        sent = some sent;
        fee = fee;
        confirmation_time = confirmation_time;
      })
    ]

  unfoldable pub set_last_index : KeychainKind → ℕ → Action (Unit {0})
  set_last_index keychain value = do
    last_derivation_index ← lift (to_signed 31 value)
    found ← get_keychain w (keychain_column keychain)
    elim found [
      | some row ↦ update_keychain w (record row { last_derivation_index = last_derivation_index })
      | none ↦ insert_keychain w (record {
        node_id = w.node_id;
        keychain = keychain_column keychain;
        last_derivation_index = last_derivation_index;
        checksum = none;
      })
    ]

  -- `format!("{}/chain/last_sync", self.node_id)`
  pub last_sync_key : Text
  last_sync_key = w.node_id ++ codes "/chain/last_sync"

  unfoldable pub set_sync_time : BlockTime → Action (Unit {0})
  set_sync_time sync_time = set_value w last_sync_key (w.sync_time_codec.encode sync_time)

  unfoldable pub del_script_pubkey_from_path : KeychainKind → ℕ → Action (Option Text)
  del_script_pubkey_from_path keychain child = do
    child ← lift (to_signed 31 child)
    found ← get_script_pubkey_by_path w (keychain_column keychain) child
    elim found [
      | none ↦ pure none
      | some row ↦ (do
        script ← lift (unhexed w.script_codec encode row.script)
        delete_script_pubkey w row
        pure (some script))
    ]

  unfoldable pub del_path_from_script_pubkey : Text → Action (Option (KeychainKind × ℕ))
  del_path_from_script_pubkey script = do
    found ← get_script_pubkey_by_script w (hexed w.script_codec script)
    elim found [
      | none ↦ pure none
      | some row ↦ (do
        keychain ← lift (or_err json (w.keychain_codec.decode row.keychain))
        delete_script_pubkey w row
        pure (some (keychain, row.child)))
    ]

  unfoldable pub del_utxo : OutPoint → Action (Option LocalUtxo)
  del_utxo outpoint = do
    vout ← lift (to_signed 31 outpoint.vout)
    found ← get_utxo w (hexed w.txid_codec outpoint.txid) vout
    elim found [
      | none ↦ pure none
      | some row ↦ (do
        keychain ← lift (or_err json (w.keychain_codec.decode row.keychain))
        script ← lift (unhexed w.script_codec encode row.script)
        delete_utxo w row
        pure (
            some (record {
              outpoint = outpoint;
              txout = record { value = row.value; script_pubkey = script };
              keychain = keychain;
              is_spent = row.is_spent;
            })))
    ]

  unfoldable pub del_raw_tx : Text → Action (Option Transaction)
  del_raw_tx txid = do
    found ← get_transaction w (hexed w.txid_codec txid)
    elim found [
      | none ↦ pure none
      | some row ↦ (do
        raw_tx ← lift (decoded w.tx_codec.decode row.raw_tx)
        update_transaction w (record row { raw_tx = none })
        pure raw_tx)
    ]

  -- Without `include_raw` the row stays: `received` and `sent` keep their values (`NotSet`), the fee
  -- and the confirmation are cleared.
  unfoldable pub del_tx : Text → Bool → Action (Option TransactionDetails)
  del_tx txid include_raw = do
    found ← get_transaction w (hexed w.txid_codec txid)
    elim found [
      | none ↦ pure none
      | some row ↦ (do
        details ← to_transaction_details w row
        (if include_raw
            then delete_transaction w row
            else update_transaction w (record row { fee = none; confirmation_time = none }))
        pure (some details))
    ]

  -- The update sets no column but the timestamp.
  unfoldable pub del_last_index : KeychainKind → Action (Option ℕ)
  del_last_index keychain = do
    found ← get_keychain w (keychain_column keychain)
    elim found [
      | none ↦ pure none
      | some row ↦ (do update_keychain w row; pure (some row.last_derivation_index))
    ]

  unfoldable pub del_sync_time : Action (Option BlockTime)
  del_sync_time = do
    found ← get_value w last_sync_key
    elim found [
      | none ↦ pure none
      | some row ↦ (do
        sync_time ← lift (or_err json (w.sync_time_codec.decode row.v))
        delete_kv_store w row
        pure (some sync_time))
    ]
