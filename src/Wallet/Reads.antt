-- ===== src/Wallet/Reads.antt =====
-- senseicore/src/chain/database.rs, lines 930 to 1110: `Database`, what bdk reads, and
-- `DatabaseUtils`.
use mathlib.Core.Option
use sensei.Prelude.{
  ℕ, ◌+◌, Bool, true, false, Option, none, some, List, Text, err, get_elem?, or_err, ◌=text◌,
  if◌then◌else◌,
}
use sensei.Codec.{hexed, unhexed}
use sensei.Wallet.Types.{
  WalletDatabase, OutPoint, TxOut, LocalUtxo, TransactionDetails, Transaction, BlockTime,
  KeychainKind,
}
use sensei.Wallet.Store.{
  Action, json, encode, checksum_mismatch, invalid_outpoint, ◌>>=◌, ◌>>◌, pure, lift, unwrapped,
  to_signed, insert_keychain,
}
use sensei.Wallet.Queries
use sensei.Wallet.Queries.{
  get_value, get_script_pubkeys, get_script_pubkey_by_path, get_script_pubkey_by_script,
  get_transaction, get_keychain, get_utxos, get_transactions, to_transaction_details, to_local_utxo,
  decoded,
}
use sensei.Wallet.Operations.{keychain_column, set_last_index, last_sync_key}

module _ (w : WalletDatabase) where
  unfoldable pub check_descriptor_checksum : KeychainKind → Text → Action (Unit {0})
  check_descriptor_checksum keychain bytes = do
    found ← get_keychain w (keychain_column w keychain)
    elim found [
      | some row ↦
          if elim row.checksum [ none ↦ false | some checksum ↦ checksum =text bytes ]
          then pure tt
          else lift (err checksum_mismatch)
      | none ↦ insert_keychain w (record {
        node_id = w.node_id;
        keychain = keychain_column w keychain;
        last_derivation_index = 0;
        checksum = some bytes;
      })
    ]

  unfoldable pub iter_script_pubkeys : Option KeychainKind → Action (List Text)
  iter_script_pubkeys keychain = get_script_pubkeys w (Option.map (keychain_column w) keychain)

  unfoldable pub get_script_pubkey_from_path : KeychainKind → ℕ → Action (Option Text)
  get_script_pubkey_from_path keychain child = do
    child ← lift (to_signed 31 child)
    found ← get_script_pubkey_by_path w (keychain_column w keychain) child
    elim found [
      | none ↦ pure none
      | some row ↦ (do
        script ← unwrapped (lift (unhexed w.script_codec encode row.script))
        pure (some script))
    ]

  unfoldable pub get_path_from_script_pubkey : Text → Action (Option (KeychainKind × ℕ))
  get_path_from_script_pubkey script = do
    found ← get_script_pubkey_by_script w (hexed w.script_codec script)
    elim found [
      | none ↦ pure none
      | some row ↦ (do
        keychain ← unwrapped (lift (or_err json (w.keychain_codec.decode row.keychain)))
        pure (some (keychain, row.child)))
    ]

  unfoldable pub get_utxo : OutPoint → Action (Option LocalUtxo)
  get_utxo outpoint = do
    vout ← lift (to_signed 31 outpoint.vout)
    found ← Queries.get_utxo w (hexed w.txid_codec outpoint.txid) vout
    elim found [
      | none ↦ pure none
      | some row ↦ (do utxo ← unwrapped (lift (to_local_utxo w row)); pure (some utxo))
    ]

  unfoldable pub get_raw_tx : Text → Action (Option Transaction)
  get_raw_tx txid = do
    found ← get_transaction w (hexed w.txid_codec txid)
    elim found [ none ↦ pure none | some row ↦ lift (decoded w.tx_codec.decode row.raw_tx) ]

  unfoldable pub get_tx : Text → Bool → Action (Option TransactionDetails)
  get_tx txid include_raw = do
    found ← get_transaction w (hexed w.txid_codec txid)
    elim found [
      | none ↦ pure none
      | some row ↦ (do details ← unwrapped (to_transaction_details w row); pure (some details))
    ]

  unfoldable pub get_last_index : KeychainKind → Action (Option ℕ)
  get_last_index keychain = do
    found ← get_keychain w (keychain_column w keychain)
    pure (Option.map (λ row. row.last_derivation_index) found)

  -- Reads a `LastSync`, where `set_sync_time` writes a `SyncTime`.
  unfoldable pub get_sync_time : Action (Option BlockTime)
  get_sync_time = do
    found ← get_value w (last_sync_key w)
    elim found [
      | none ↦ pure none
      | some row ↦ (do
        last_sync ← unwrapped (lift (or_err json (w.last_sync_codec.decode row.v)))
        pure (some (record { height = last_sync.height; timestamp = last_sync.timestamp })))
    ]

  unfoldable pub increment_last_index : KeychainKind → Action ℕ
  increment_last_index keychain = do
    found ← get_last_index keychain
    elim found [
      | some index ↦ (do set_last_index w keychain (index + 1); pure (index + 1))
      | none ↦ (do set_last_index w keychain 0; pure 0)
    ]

  unfoldable pub is_mine : Text → Action Bool
  is_mine script = do
    path ← get_path_from_script_pubkey script
    pure (elim path [ none ↦ false | some _ ↦ true ])

  unfoldable pub get_raw_tx_or : Text → Action (Option Transaction) → Action (Option Transaction)
  get_raw_tx_or txid default = do
    found ← get_tx txid true
    elim found [
      | none ↦ default
      | some details ↦ elim details.transaction [ none ↦ default | some t ↦ pure (some t) ]
    ]

  unfoldable pub iter_utxos : Action (List LocalUtxo)
  iter_utxos = get_utxos w

  unfoldable pub iter_raw_txs : Action (List Transaction)
  iter_raw_txs = Queries.get_raw_transactions w

  unfoldable pub iter_txs : Bool → Action (List TransactionDetails)
  iter_txs include_raw = get_transactions w

  unfoldable pub get_previous_output : OutPoint → Action (Option TxOut)
  get_previous_output outpoint = do
    raw ← get_raw_tx outpoint.txid
    elim raw [
      | none ↦ pure none
      | some previous_tx ↦ elim (get_elem? previous_tx.output outpoint.vout) [
        | none ↦ lift (err (invalid_outpoint outpoint))
        | some output ↦ pure (some output)
      ]
    ]
