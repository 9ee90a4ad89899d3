-- ===== src/Wallet/Records.antt =====
-- How `set_tx` records a transaction: a new row, or the amounts and the confirmation of the old one.
use mathlib.Core.Option
use sensei.Prelude.{
  ℕ, ◌<◌, ◌^◌, ◌≡◌, refl, ap, ◌∙◌, Bool, true, ◌&&◌, Option, none, some, List, [], ◌∷◌, ◌++◌, map,
  Text, ◌=text◌, =text_iff, ok, find, any, arith, Option-cases, inl, inr, if◌then◌else◌,
}
use sensei.Sql.Laws.{find_sound, find-append, any-find}
use sensei.Codec.{hexed}
use sensei.Wallet.Types.{
  WalletDatabase, Stored, IsUp, TransactionRow, TransactionDetails, same_transaction,
}
use sensei.Wallet.Store.{insert_transaction, update_transaction, write}
use sensei.Wallet.Queries.{by_txid}
use sensei.Wallet.Operations.{set_tx}
use sensei.Wallet.Views.{get_transaction_lem}

-- The columns that `set_tx` sets on a row that exists.
abbrev pub with_details : WalletDatabase → TransactionDetails → TransactionRow → TransactionRow
with_details w d row = record row {
  received = some d.received;
  sent = some d.sent;
  fee = d.fee;
  confirmation_time = Option.map w.block_time_codec.encode d.confirmation_time;
}

abbrev pub new_transaction : WalletDatabase → TransactionDetails → TransactionRow
new_transaction w d = record {
  node_id = w.node_id;
  txid = hexed w.txid_codec d.txid;
  raw_tx = Option.map w.tx_codec.encode d.transaction;
  received = some d.received;
  sent = some d.sent;
  fee = d.fee;
  confirmation_time = Option.map w.block_time_codec.encode d.confirmation_time;
}

abbrev pub replace : TransactionRow → List TransactionRow → List TransactionRow
replace row = map λ x. if same_transaction row x then row else x

unfoldable pub recorded :
    WalletDatabase → TransactionDetails → List TransactionRow → List TransactionRow
recorded w d rows = elim (find (by_txid w (hexed w.txid_codec d.txid)) rows) [
  | none ↦ rows ++ new_transaction w d ∷ []
  | some row ↦ replace (with_details w d row) rows
]

-- The transaction row of a txid.
unfoldable pub transaction_at : WalletDatabase → Stored → Text → Option TransactionRow
transaction_at w st txid = find (by_txid w (hexed w.txid_codec txid)) st.transactions

abbrev pub FitsFee : Option ℕ → Type 0
FitsFee none = Unit
FitsFee (some fee) = fee < 2 ^ 63

-- A row that was found by a txid is addressed as the lookup asked for it.
same_by_txid :
    (w : WalletDatabase) (txid : Text) (row : TransactionRow)
    → by_txid w txid row ≡ true
    → same_transaction row ≡ by_txid w txid
same_by_txid w txid row hit =
    let node : row.node_id ≡ w.node_id = (=text_iff row.node_id w.node_id).0 (ground arith) in
    let key : row.txid ≡ txid = (=text_iff row.txid txid).0 (ground arith) in
    λ i x. (x.node_id =text node i) && (x.txid =text key i)

-- Replacing the rows of a key changes what the key finds to the new row.
find-replace :
    (p : TransactionRow → Bool) (row : TransactionRow) (rows : List TransactionRow)
    → same_transaction row ≡ p
    → find p (replace row rows)
      ≡ elim (find p rows) [ some _ ↦ if p row then some row else none | none ↦ none ]
find-replace p row [] same = refl
find-replace p row (x ∷ rows) same =
    let at_x : same_transaction row x ≡ p x = ap (λ q. q x) same in
    ground (arith, find-replace p row rows same)

module _ (w : WalletDatabase) (up : IsUp w) where
  pub update_found :
      (txid : Text) (row row' : TransactionRow) (st : Stored)
      → find (by_txid w txid) st.transactions ≡ some row
      → same_transaction row' ≡ same_transaction row
      → update_transaction w row' st
        ≡ (ok tt, record st { transactions = replace row' st.transactions })
  unfolding update_transaction
  update_found txid row row' st found same =
      let hit : by_txid w txid row ≡ true = find_sound (by_txid w txid) st.transactions row found in
      let present : any (same_transaction row') st.transactions ≡ true =
        ap (λ p. any p st.transactions) (same ∙ same_by_txid w txid row hit)
        ∙ any-find (by_txid w txid) st.transactions
        ∙ (rw found) in
      let law : w.transaction.update row' st.transactions ≡ ok (replace row' st.transactions) =
        up.transaction_law.update_lem row' st.transactions ∙ (rw present) in
      ap (λ r. write r (λ rows. record st { transactions = rows }) st) law

  insert_missing :
      (row : TransactionRow) (st : Stored)
      → insert_transaction w row st
        ≡ (ok tt, record st { transactions = st.transactions ++ row ∷ [] })
  unfolding insert_transaction
  insert_missing row st =
      ap (λ r. write r (λ rows. record st { transactions = rows }) st)
        (up.transaction_law.insert_lem row st.transactions)

  set_tx_at :
      (d : TransactionDetails) (fee : Option ℕ) (st : Stored)
      → d.fee ≡ fee
      → d.received < 2 ^ 63
      → d.sent < 2 ^ 63
      → FitsFee fee
      → set_tx w d st ≡ (ok tt, record st { transactions = recorded w d st.transactions })
  unfolding set_tx recorded
  set_tx_at d none st e fr fs ff =
      let query = get_transaction_lem w up (hexed w.txid_codec d.txid) st in
      elim (Option-cases (find (by_txid w (hexed w.txid_codec d.txid)) st.transactions)) [
        | inl missing ↦ ground (arith, query, insert_missing (new_transaction w d) st)
        | inr (row, found) ↦ ground (
          arith,
          query,
          update_found (hexed w.txid_codec d.txid) row (with_details w d row) st found refl,
        )
      ]
  set_tx_at d (some fee) st e fr fs ff =
      let query = get_transaction_lem w up (hexed w.txid_codec d.txid) st in
      elim (Option-cases (find (by_txid w (hexed w.txid_codec d.txid)) st.transactions)) [
        | inl missing ↦ ground (arith, query, insert_missing (new_transaction w d) st)
        | inr (row, found) ↦ ground (
          arith,
          query,
          update_found (hexed w.txid_codec d.txid) row (with_details w d row) st found refl,
        )
      ]

  pub set_tx_lem :
      (d : TransactionDetails) (st : Stored)
      → d.received < 2 ^ 63
      → d.sent < 2 ^ 63
      → FitsFee d.fee
      → set_tx w d st ≡ (ok tt, record st { transactions = recorded w d st.transactions })
  set_tx_lem d st fr fs ff = set_tx_at d d.fee st refl fr fs ff

  -- The recorded row is found under its txid: a new one, or the old one with the new details.
  pub transaction_at-recorded :
      (d : TransactionDetails) (st : Stored)
      → transaction_at w (record st { transactions = recorded w d st.transactions }) d.txid
        ≡ some (elim (transaction_at w st d.txid) [
          | none ↦ new_transaction w d
          | some row ↦ with_details w d row
        ])
  unfolding transaction_at recorded
  transaction_at-recorded d st =
      let p = by_txid w (hexed w.txid_codec d.txid) in
      elim (Option-cases (find p st.transactions)) [
        | inl missing ↦ ground (
          arith,
          find-append p st.transactions (new_transaction w d),
          =text_iff w.node_id w.node_id,
          =text_iff (hexed w.txid_codec d.txid) (hexed w.txid_codec d.txid),
        )
        | inr (row, found) ↦ ground (
          arith,
          find-replace p (with_details w d row) st.transactions (
              same_by_txid w (hexed w.txid_codec d.txid) row
                (find_sound p st.transactions row found)),
          find_sound p st.transactions row found,
        )
      ]
