-- ===== src/Wallet/Blocks.antt =====
-- senseicore/src/chain/database.rs, lines 27 to 129: how the wallet follows the chain, and
-- `create_or_update_last_onchain_wallet_sync` of senseicore/src/database.rs.
use sensei.Prelude.{
  ℕ, ◌+◌, ◌-◌, ◌%◌, ◌^◌, Bool, true, false, Option, none, some, List, [], ◌∷◌, Text, ltb, ◌=text◌,
  any, is_empty, expect_some, if◌then◌else◌,
}
use sensei.Text.{codes}
use sensei.Wallet.Types.{
  WalletDatabase, LocalUtxo, TransactionDetails, Transaction, BlockTime, LastSync, external,
  internal,
}
use sensei.Wallet.Store.{Action, ◌>>=◌, ◌>>◌, pure, lift, unwrapped}
use sensei.Wallet.Queries.{get_value, set_value, get_transactions, get_utxos}
use sensei.Wallet.Operations.{del_tx, del_utxo}
use sensei.Wallet.Process.{MaxDeriv, no_deriv, process_tx, bump_index}

-- The fields of `BlockHeader` that are read.
pub record BlockHeader : Type 0 where
  pub block_hash : Text
  pub prev_blockhash : Text
  pub time : ℕ

-- `Some(c) if c.height < height => continue`
abbrev pub is_below : ℕ → Option BlockTime → Bool
is_below height none = false
is_below height (some c) = ltb c.height height

module _ (w : WalletDatabase) where
  abbrev pub last_onchain_wallet_sync : Text
  last_onchain_wallet_sync = codes "last_onchain_wallet_sync"

  unfoldable pub create_or_update_last_onchain_wallet_sync : LastSync → Action LastSync
  create_or_update_last_onchain_wallet_sync last_sync = do
    found ← get_value w last_onchain_wallet_sync
    elim found [
      | some entry ↦ lift (expect_some (w.last_sync_codec.decode entry.v))
      | none ↦ (do
        set_value w last_onchain_wallet_sync (w.last_sync_codec.encode last_sync)
        pure last_sync)
    ]

  unfoldable pub process_block : List Transaction → ℕ → ℕ → MaxDeriv → Action MaxDeriv
  process_block [] height time m = pure m
  process_block (tx ∷ txdata) height time m = do
    m' ← process_tx w tx (some height) (some time) m
    process_block txdata height time m'

  -- `now` is what `time::get_timestamp` returns.
  unfoldable pub filtered_block_connected :
      BlockHeader → List Transaction → ℕ → ℕ → Action (Unit {0})
  filtered_block_connected header txdata height now = do
    m ← process_block txdata height header.time no_deriv
    bump_index w external m.external_max
    bump_index w internal m.internal_max
    _ ← unwrapped (
        create_or_update_last_onchain_wallet_sync
          (record { height = height; hash = header.block_hash; timestamp = now }))
    pure tt

  -- The loop over the transactions; the txids of those that were deleted, in order.
  unfoldable pub delete_from_height : ℕ → List TransactionDetails → Action (List Text)
  delete_from_height height [] = pure []
  delete_from_height height (details ∷ rest) = elim (is_below height details.confirmation_time) [
    | true ↦ delete_from_height height rest
    | false ↦ (do
      _ ← unwrapped (del_tx w details.txid false)
      txids ← delete_from_height height rest
      pure (details.txid ∷ txids))
  ]

  -- The loop over the utxos.
  unfoldable pub delete_created : List Text → List LocalUtxo → Action (Unit {0})
  delete_created txids [] = pure tt
  delete_created txids (utxo ∷ rest) = do
    (if any (λ t. t =text utxo.outpoint.txid) txids
        then (do _ ← unwrapped (del_utxo w utxo.outpoint); pure tt)
        else pure tt)
    delete_created txids rest

  unfoldable pub block_disconnected : BlockHeader → ℕ → ℕ → Action (Unit {0})
  block_disconnected header height now = do
    txs ← unwrapped (get_transactions w)
    deleted_txids ← delete_from_height height txs
    (if is_empty deleted_txids
        then pure tt
        else (do utxos ← unwrapped (get_utxos w); delete_created deleted_txids utxos))
    _ ← unwrapped (
        create_or_update_last_onchain_wallet_sync (record {
          height = (height + 2 ^ 32 - 1) % 2 ^ 32;
          hash = header.prev_blockhash;
          timestamp = now;
        }))
    pure tt
