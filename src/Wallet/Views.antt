-- ===== src/Wallet/Views.antt =====
-- What the wallet's lookups find in tables whose columns hold encodings.
use mathlib.Core.Option
use sensei.Prelude.{
  ℕ, ◌<◌, ◌≡◌, ap, ◌∙◌, true, false, Option, none, some, Text, ok, find, All, get_elem?,
  get_elem?_lt, length, arith, Option-cases, inl, inr,
}
use sensei.Sql.Laws.{find-All}
use sensei.Codec.{Codec, hexed}
use sensei.Wallet.Types.{
  WalletDatabase, Stored, IsUp, UtxoRow, TransactionRow, OutPoint, TxOut, Transaction, KeychainKind,
}
use sensei.Wallet.Store.{read}
use sensei.Wallet.Queries
use sensei.Wallet.Queries.{
  by_script, by_txid, by_outpoint, get_script_pubkey_by_script, get_transaction,
}
use sensei.Wallet.Reads.{get_path_from_script_pubkey, get_raw_tx, get_previous_output, is_mine}

abbrev pub Encodes : {A : Type 0} → Codec A → Text → Type 0
Encodes {A} c column = (a : A) × (column ≡ c.encode a)

module _ (w : WalletDatabase) where
  -- Every column that the wallet decodes holds an encoding.
  pub record IsReadable (st : Stored) : Type 0 where
    pub utxo_keychains : All (λ r. Encodes w.keychain_codec r.keychain) st.utxos
    pub utxo_scripts : All (λ r. (s : Text) × (r.script ≡ hexed w.script_codec s)) st.utxos
    pub script_keychains : All (λ r. Encodes w.keychain_codec r.keychain) st.script_pubkeys
    pub raw_txs :
        All
          (λ r. (tx : Option Transaction) × (r.raw_tx ≡ Option.map w.tx_codec.encode tx))
          st.transactions

  -- The path from which a script was derived, if it is ours.
  unfoldable pub path_of : Stored → Text → Option (KeychainKind × ℕ)
  path_of st script = elim (find (by_script w (hexed w.script_codec script)) st.script_pubkeys) [
    | none ↦ none
    | some row ↦ Option.map (λ k. (k, row.child)) (w.keychain_codec.decode row.keychain)
  ]

  unfoldable pub raw_tx_of : Stored → Text → Option Transaction
  raw_tx_of st txid = elim (find (by_txid w (hexed w.txid_codec txid)) st.transactions) [
    | none ↦ none
    | some row ↦ elim row.raw_tx [ none ↦ none | some column ↦ w.tx_codec.decode column ]
  ]

  -- The output that an input spends, if the wallet knows the transaction.
  unfoldable pub output_of : Stored → OutPoint → Option TxOut
  output_of st outpoint = elim (raw_tx_of st outpoint.txid) [
    | none ↦ none
    | some tx ↦ get_elem? tx.output outpoint.vout
  ]

  unfoldable pub utxo_at : Stored → OutPoint → Option UtxoRow
  utxo_at st outpoint = find (by_outpoint (hexed w.txid_codec outpoint.txid) outpoint.vout) st.utxos

  -- The outpoint lies in its transaction, where the wallet knows that.
  abbrev pub IsInRange : Stored → OutPoint → Type 0
  IsInRange st outpoint =
      (tx : Transaction) → raw_tx_of st outpoint.txid ≡ some tx → outpoint.vout < length tx.output

  module _ (up : IsUp w) where
    pub get_script_pubkey_by_script_lem :
        (script : Text) (st : Stored)
        → get_script_pubkey_by_script w script st
          ≡ (ok (find (by_script w script) st.script_pubkeys), st)
    unfolding get_script_pubkey_by_script
    get_script_pubkey_by_script_lem script st =
        ap (λ r. read r st) (up.script_pubkey_law.one_lem _ st.script_pubkeys)

    pub get_transaction_lem :
        (txid : Text) (st : Stored)
        → get_transaction w txid st ≡ (ok (find (by_txid w txid) st.transactions), st)
    unfolding get_transaction
    get_transaction_lem txid st = ap (λ r. read r st) (up.transaction_law.one_lem _ st.transactions)

    pub get_utxo_lem :
        (txid : Text) (vout : ℕ) (st : Stored)
        → Queries.get_utxo w txid vout st ≡ (ok (find (by_outpoint txid vout) st.utxos), st)
    unfolding Queries.get_utxo
    get_utxo_lem txid vout st = ap (λ r. read r st) (up.utxo_law.one_lem _ st.utxos)

    module _ (st : Stored) (readable : IsReadable st) where
      pub get_path_from_script_pubkey_lem :
          (script : Text) → get_path_from_script_pubkey w script st ≡ (ok (path_of st script), st)
      unfolding get_path_from_script_pubkey path_of
      get_path_from_script_pubkey_lem script =
          let p = by_script w (hexed w.script_codec script) in
          let query = get_script_pubkey_by_script_lem (hexed w.script_codec script) st in
          elim (Option-cases (find p st.script_pubkeys)) [
            | inl missing ↦ ground (arith, query)
            | inr (row, found) ↦
                let (k, e) =
                  find-All (λ r. Encodes w.keychain_codec r.keychain) p st.script_pubkeys row
                    readable.script_keychains found in
                let back : w.keychain_codec.decode row.keychain ≡ some k =
                  ap w.keychain_codec.decode e ∙ up.keychain_codec_law.decode-encode k in
                ground (arith, query)
          ]

      pub is_mine_lem :
          (script : Text)
          → is_mine w script st
            ≡ (ok (elim (path_of st script) [ none ↦ false | some _ ↦ true ]), st)
      unfolding is_mine
      is_mine_lem script = ground (arith, get_path_from_script_pubkey_lem script)

      pub get_raw_tx_lem : (txid : Text) → get_raw_tx w txid st ≡ (ok (raw_tx_of st txid), st)
      unfolding get_raw_tx raw_tx_of
      get_raw_tx_lem txid =
          let p = by_txid w (hexed w.txid_codec txid) in
          let query = get_transaction_lem (hexed w.txid_codec txid) st in
          elim (Option-cases (find p st.transactions)) [
            | inl missing ↦ ground (arith, query)
            | inr (row, found) ↦
                let (tx, e) =
                  find-All
                    (λ r. (tx : Option Transaction) × (r.raw_tx ≡ Option.map w.tx_codec.encode tx))
                    p st.transactions row readable.raw_txs found in
                decoded_row row tx found e
          ]
        where
          decoded_row :
              (row : TransactionRow) (tx : Option Transaction)
              → find (by_txid w (hexed w.txid_codec txid)) st.transactions ≡ some row
              → row.raw_tx ≡ Option.map w.tx_codec.encode tx
              → get_raw_tx w txid st ≡ (ok (raw_tx_of st txid), st)
          decoded_row row none found e =
              ground (arith, get_transaction_lem (hexed w.txid_codec txid) st)
          decoded_row row (some tx) found e =
              ground (
                arith,
                get_transaction_lem (hexed w.txid_codec txid) st,
                up.tx_law.decode-encode tx,
              )

      pub get_previous_output_lem :
          (outpoint : OutPoint)
          → IsInRange st outpoint
          → get_previous_output w outpoint st ≡ (ok (output_of st outpoint), st)
      unfolding get_previous_output output_of
      get_previous_output_lem outpoint inside = elim (Option-cases (raw_tx_of st outpoint.txid)) [
        | inl unknown ↦ ground (arith, get_raw_tx_lem outpoint.txid)
        | inr (tx, known) ↦
            let (output, e) = get_elem?_lt tx.output outpoint.vout (inside tx known) in
            ground (arith, get_raw_tx_lem outpoint.txid)
      ]
