-- ===== src/Wallet/Effects.antt =====
-- What taking in one transaction (`process_tx` of senseicore/src/chain/database.rs) leaves in the
-- tables, seen by their lookups.
use sensei.Prelude.{
  ℕ, ◌≡◌, refl, ap, ◌∙◌, true, false, Option, none, some, Text, ok, arith, Bool-cases, inl, inr,
  if◌then◌else◌, find,
}
use sensei.Codec.{hexed}
use sensei.Wallet.Types.{WalletDatabase, Stored, IsUp, OutPoint, Transaction}
use sensei.Wallet.Queries.{by_txid}
use sensei.Wallet.Process.{MaxDeriv, process_tx}
use sensei.Wallet.Views.{path_of, utxo_at}
use sensei.Wallet.Spends.{own_output, spend}
use sensei.Wallet.Creates.{derivs}
use sensei.Wallet.Lookup.{is_spent_by, new_at, utxo_at-spend, utxo_at-outputs}
use sensei.Wallet.Records.{transaction_at, with_details, new_transaction, transaction_at-recorded}
use sensei.Wallet.Refines.{
  IsProcessable, details, moved, concerns_us, after, process_tx-after, transactions-moved,
}

module _ (w : WalletDatabase) (up : IsUp w) where
  transaction_at-same :
      (txid : Text) (st st' : Stored)
      → st.transactions ≡ st'.transactions
      → transaction_at w st txid ≡ transaction_at w st' txid
  unfolding transaction_at
  transaction_at-same txid st st' e = ap (find (by_txid w (hexed w.txid_codec txid))) e

  utxos-after :
      (tx : Transaction) (height time : Option ℕ) (o : OutPoint) (st : Stored)
      → utxo_at w (after w st tx height time) o ≡ utxo_at w (moved w st tx) o
  unfolding utxo_at after
  utxos-after tx height time o st = elim (Bool-cases (concerns_us w st tx)) [
    | inl e ↦ rw (e, after) refl
    | inr e ↦ rw (e, after) refl
  ]

  transaction_at-after :
      (tx : Transaction) (height time : Option ℕ) (st : Stored)
      → concerns_us w st tx ≡ true
      → transaction_at w (after w st tx height time) tx.txid
        ≡ some (elim (transaction_at w st tx.txid) [
          | none ↦ new_transaction w (details w st tx height time)
          | some row ↦ with_details w (details w st tx height time) row
        ])
  unfolding after
  transaction_at-after tx height time st ours =
      let same : transaction_at w (moved w st tx) tx.txid ≡ transaction_at w st tx.txid =
        transaction_at-same tx.txid (moved w st tx) st (transactions-moved w st tx) in
      rw (ours, after, ← same)
        (transaction_at-recorded w up (details w st tx height time) (moved w st tx))

  transactions-after :
      (tx : Transaction) (height time : Option ℕ) (st : Stored)
      → concerns_us w st tx ≡ false
      → (after w st tx height time).transactions ≡ st.transactions
  unfolding after
  transactions-after tx height time st foreign = rw (foreign, after) (transactions-moved w st tx)

  -- For a transaction that the wallet can take in: `process_tx` succeeds with the highest indexes
  -- that are paid, and afterwards an outpoint that an input of ours spends, or that had no utxo, has
  -- the utxo that the transaction itself makes there, if any, and every other one keeps its utxo.
  pub process_tx-utxo_at :
      (tx : Transaction) (height time : Option ℕ) (m : MaxDeriv) (st : Stored)
      → IsProcessable w st tx
      → ((process_tx w tx height time m st).0 ≡ ok (derivs (path_of w st) m tx.output))
        × ((o : OutPoint)
            → utxo_at w (process_tx w tx height time m st).1 o
              ≡ elim (if is_spent_by (own_output w st) tx.input o then none else utxo_at w st o) [
                | some r ↦ some r
                | none ↦ new_at w (path_of w st) tx.txid tx.output o
              ])
  process_tx-utxo_at tx height time m st can =
      let run = process_tx-after w up tx height time m st can in
      (
        ap (λ r. r.0) run,
        λ o.
            ap (λ r. utxo_at w r.1 o) run
            ∙ utxos-after tx height time o st
            ∙ ground (
              arith,
              utxo_at-outputs w up (path_of w st) tx.txid tx.output o
                  (spend w (own_output w st) tx.input st),
              utxo_at-spend w up (own_output w st) tx.input o st,
            ),
      )

  -- For a transaction that the wallet can take in and that pays us or spends from us: the row of its
  -- txid holds what is ours of its outputs as received, what is ours of its inputs as sent, the known
  -- inputs less the outputs as fee and the confirmation, in a new row, or over those of the old row.
  pub process_tx-transaction_at :
      (tx : Transaction) (height time : Option ℕ) (m : MaxDeriv) (st : Stored)
      → IsProcessable w st tx
      → concerns_us w st tx ≡ true
      → transaction_at w (process_tx w tx height time m st).1 tx.txid
        ≡ some (elim (transaction_at w st tx.txid) [
          | none ↦ new_transaction w (details w st tx height time)
          | some row ↦ with_details w (details w st tx height time) row
        ])
  process_tx-transaction_at tx height time m st can ours =
      let run = process_tx-after w up tx height time m st can in
      ap (λ r. transaction_at w r.1 tx.txid) run ∙ transaction_at-after tx height time st ours

  -- For a transaction that the wallet can take in and that moves nothing of ours: no transaction row
  -- is written.
  pub process_tx-foreign :
      (tx : Transaction) (height time : Option ℕ) (m : MaxDeriv) (st : Stored)
      → IsProcessable w st tx
      → concerns_us w st tx ≡ false
      → (process_tx w tx height time m st).1.transactions ≡ st.transactions
  process_tx-foreign tx height time m st can foreign =
      ap (λ r. r.1.transactions) (process_tx-after w up tx height time m st can)
      ∙ transactions-after tx height time st foreign
