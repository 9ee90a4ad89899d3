-- ===== src/Wallet/Refines.antt =====
-- What `process_tx` does to the tables, as one transition: the utxos that it spends go, the outputs
-- that are ours come, and one transaction row keeps the amounts.
use sensei.Prelude.{
  ℕ, ◌+◌, ◌-◌, ◌<◌, ◌≤◌, ◌^◌, ◌≡◌, refl, ◌∙◌, Bool, true, false, ◌||◌, Option, some, List, [], ◌∷◌,
  Text, ok, find, All, length, ltb, arith, Option-cases, Bool-cases, inl, inr, if◌then◌else◌,
}
use mathlib.Core.Option
use sensei.Sql.Laws.{find-All, All-snoc}
use sensei.Codec.{hexed}
use sensei.Wallet.Types.{
  WalletDatabase, Stored, IsUp, OutPoint, TxOut, Transaction, TransactionDetails, TransactionRow,
  KeychainKind, same_transaction,
}
use sensei.Wallet.Queries.{by_txid}
use sensei.Wallet.Process.{MaxDeriv, process_tx, no_deriv}
use sensei.Wallet.Views.{IsReadable, path_of, output_of}
use sensei.Wallet.Spends.{IsSpendable, spend, own_output, process_inputs_lem}
use sensei.Wallet.Creates.{create, derivs, process_outputs_lem}
use sensei.Wallet.Sums.{
  total, own_total, spent_total, own_total-le, value-lt, incoming_from-eq, total_from-eq,
  sum_from-eq, spent_total-own,
}
use sensei.Wallet.Records.{recorded, with_details, new_transaction, replace, set_tx_lem}

module _ (w : WalletDatabase) (st : Stored) where
  -- A transaction that the wallet can take in: the tables can be read, every input lies in its
  -- transaction, and the amounts fit the signed columns.
  pub record IsProcessable (tx : Transaction) : Type 0 where
    pub readable : IsReadable w st
    pub spendable : All (IsSpendable w st) tx.input
    pub positions : length tx.output ≤ 2 ^ 31
    pub values : total tx.output < 2 ^ 63
    pub inputs : spent_total (output_of w st) tx.input < 2 ^ 63

  abbrev pub received : Transaction → ℕ
  received tx = own_total (path_of w st) tx.output

  abbrev pub sent : Transaction → ℕ
  sent tx = spent_total (own_output w st) tx.input

  abbrev pub details : Transaction → Option ℕ → Option ℕ → TransactionDetails
  details tx height time = record {
    transaction = some tx;
    txid = tx.txid;
    received = received tx;
    sent = sent tx;
    fee = some (spent_total (output_of w st) tx.input - total tx.output);
    confirmation_time = w.block_time height time;
  }

  -- The utxos after the transaction.
  abbrev pub moved : Transaction → Stored
  moved tx = create w (path_of w st) tx.txid 0 tx.output (spend w (own_output w st) tx.input st)

  abbrev pub concerns_us : Transaction → Bool
  concerns_us tx = ltb 0 (received tx) || ltb 0 (sent tx)

  unfoldable pub after : Transaction → Option ℕ → Option ℕ → Stored
  after tx height time =
      if concerns_us tx
      then record (moved tx) {
        transactions = recorded w (details tx height time) (moved tx).transactions;
      }
      else moved tx

module _ (w : WalletDatabase) where
  pub path_of-spend :
      (own : OutPoint → Option TxOut) (ins : List OutPoint) (st : Stored)
      → path_of w (spend w own ins st) ≡ path_of w st
  unfolding path_of spend
  path_of-spend own [] st = refl
  path_of-spend own (o ∷ rest) st = elim (Option-cases (own o)) [
    | inl foreign ↦ rw (foreign, spend) (path_of-spend own rest st)
    | inr (t, mine) ↦ rw (mine, spend) (path_of-spend own rest _)
  ]

  transactions-spend :
      (own : OutPoint → Option TxOut) (ins : List OutPoint) (st : Stored)
      → (spend w own ins st).transactions ≡ st.transactions
  unfolding spend
  transactions-spend own [] st = refl
  transactions-spend own (o ∷ rest) st = elim (Option-cases (own o)) [
    | inl foreign ↦ rw (foreign, spend) (transactions-spend own rest st)
    | inr (t, mine) ↦ rw (mine, spend) (transactions-spend own rest _)
  ]

  transactions-create :
      (path : Text → Option (KeychainKind × ℕ)) (txid : Text) (i : ℕ) (outs : List TxOut)
      (st : Stored)
      → (create w path txid i outs st).transactions ≡ st.transactions
  unfolding create
  transactions-create path txid i [] st = refl
  transactions-create path txid i (t ∷ rest) st = elim (Option-cases (path t.script_pubkey)) [
    | inl foreign ↦ rw (foreign, create) (transactions-create path txid (i + 1) rest st)
    | inr ((k, child), mine) ↦ rw (mine, create) (transactions-create path txid (i + 1) rest _)
  ]

  pub transactions-moved :
      (st : Stored) (tx : Transaction) → (moved w st tx).transactions ≡ st.transactions
  transactions-moved st tx =
      transactions-create _ tx.txid 0 tx.output _ ∙ transactions-spend _ tx.input st

  -- The row of the transaction, as the columns that the wallet decodes see it.
  abbrev HasRawTx : TransactionRow → Type 0
  HasRawTx r = (tx : Option Transaction) × (r.raw_tx ≡ Option.map w.tx_codec.encode tx)

  replace-All :
      (row : TransactionRow) (rows : List TransactionRow)
      → HasRawTx row
      → All HasRawTx rows
      → All HasRawTx (replace row rows)
  replace-All row [] h all = tt
  replace-All row (x ∷ rows) h all =
      (one (same_transaction row x) h all.0, replace-All row rows h all.1)
    where
      one : (b : Bool) → HasRawTx row → HasRawTx x → HasRawTx (if b then row else x)
      one true new old = new
      one false new old = old

  recorded-All :
      (d : TransactionDetails) (rows : List TransactionRow)
      → All HasRawTx rows
      → All HasRawTx (recorded w d rows)
  unfolding recorded
  recorded-All d rows all =
      elim (Option-cases (find (by_txid w (hexed w.txid_codec d.txid)) rows)) [
        | inl missing ↦
            rw (missing, recorded)
              (All-snoc HasRawTx rows (new_transaction w d) all (d.transaction, refl))
        | inr (row, found) ↦
            rw (found, recorded)
              (replace-All (with_details w d row) rows (find-All HasRawTx _ rows row all found) all)
      ]

  recorded-IsReadable :
      (d : TransactionDetails) (st : Stored)
      → IsReadable w st
      → IsReadable w (record st { transactions = recorded w d st.transactions })
  recorded-IsReadable d st readable = record {
    utxo_keychains = readable.utxo_keychains;
    utxo_scripts = readable.utxo_scripts;
    script_keychains = readable.script_keychains;
    raw_txs = recorded-All d st.transactions readable.raw_txs;
  }

module _ (w : WalletDatabase) (up : IsUp w) where
  -- The whole of `process_tx`.
  pub process_tx-after :
      (tx : Transaction) (height time : Option ℕ) (m : MaxDeriv) (st : Stored)
      → IsProcessable w st tx
      → process_tx w tx height time m st
        ≡ (ok (derivs (path_of w st) m tx.output), after w st tx height time)
  unfolding process_tx after
  process_tx-after tx height time m st can =
      let own = own_output w st in
      let (inputs, kept) = process_inputs_lem w up tx.input 0 0 st can.readable can.spendable in
      let known_fit = can.inputs in
      let values_fit = can.values in
      let positions = can.positions in
      let own_in = spent_total-own w st tx.input in
      let own_out = own_total-le (path_of w st) tx.output in
      let same = path_of-spend w own tx.input st in
      let (outputs, good) =
        process_outputs_lem w up tx 0 tx.output 0 0 m (spend w own tx.input st) kept (omega arith)
          (value-lt (2 ^ 63) tx.output can.values) in
      let sum_own = sum_from-eq own 0 tx.input (omega arith) in
      let sum_known = sum_from-eq (output_of w st) 0 tx.input (omega arith) in
      let sum_in = incoming_from-eq (path_of w st) 0 tx.output (omega arith) in
      let sum_out = total_from-eq 0 tx.output (omega arith) in
      let outputs' = rw (same, sum_in, sum_out) at outputs in
      let inputs' = rw (sum_own, sum_known) at inputs in
      let set =
        set_tx_lem w up (details w st tx height time) (moved w st tx) (omega arith) (omega arith)
          (omega arith) in
      ground (arith, inputs', outputs', set)

  -- The wallet's tables can be read after the transaction as before.
  pub after-IsReadable :
      (tx : Transaction) (height time : Option ℕ) (st : Stored)
      → IsProcessable w st tx
      → IsReadable w (after w st tx height time)
  unfolding after
  after-IsReadable tx height time st can =
      let own = own_output w st in
      let kept = (process_inputs_lem w up tx.input 0 0 st can.readable can.spendable).1 in
      let same = path_of-spend w own tx.input st in
      let good =
        (process_outputs_lem w up tx 0 tx.output 0 0 no_deriv (spend w own tx.input st) kept
          (let positions = can.positions in omega arith)
          (value-lt (2 ^ 63) tx.output can.values)).1 in
      let good' : IsReadable w (moved w st tx) = rw same at good in
      elim (Bool-cases (concerns_us w st tx)) [
        | inl ours ↦
            rw (ours, after)
              (recorded-IsReadable w (details w st tx height time) (moved w st tx) good')
        | inr foreign ↦ rw (foreign, after) good'
      ]
