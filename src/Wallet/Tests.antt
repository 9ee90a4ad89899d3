-- ===== src/Wallet/Tests.antt =====
-- The theorems about the wallet, at a wallet over tables in memory and one transaction.
pub mod Memory
pub mod Block
use sensei.Wallet.Tests.Memory.{
  keychain_at, memory, memory-IsUp, our_script, payment, spending, funded, funded-IsReadable,
}
use sensei.Prelude.{◌=text◌}
use sensei.Prelude.{
  All, subst, sym, panic, ℕ, zero, suc, ◌<◌, ◌≡◌, refl, length, =text_iff, if◌then◌else◌, ap, max,
  unwrap_or, true, false, none, some, [], ◌∷◌, Text, ok, arith,
}
use sensei.Text.{codes}
use sensei.Sql.{list_table}
use sensei.Sql.Laws.{list_table-IsTable}
use sensei.Codec.{hexed, hexed_iff}
use sensei.Codec.Unary.{Format, number, pair, list, shaped, codec_of, codec_of-IsCodec}
use sensei.Wallet.Types.{
  KeychainKind, external, internal, OutPoint, TxOut, Transaction, BlockTime, LastSync,
  WalletDatabase, Stored, IsUp, same_utxo, same_transaction, same_script_pubkey, same_keychain,
  same_kv, ◌=kind◌,
}
use sensei.Wallet.Views.{raw_tx_of, path_of, output_of}
use sensei.Wallet.Views.{utxo_at}
use sensei.Wallet.Sums.{total, spent_total, own_total}
use sensei.Wallet.Process.{process_tx, no_deriv, bump_index}
use sensei.Wallet.Blocks.{create_or_update_last_onchain_wallet_sync}
use sensei.Wallet.Operations.{set_last_index, set_script_pubkey}
use sensei.Wallet.Reads.{get_last_index, increment_last_index, get_script_pubkey_from_path}
use sensei.Wallet.Spends.{own_output}
use sensei.Wallet.Creates.{derivs}
use sensei.Wallet.Lookup.{is_spent_by, new_at}
use sensei.Wallet.Records.{transaction_at, with_details, new_transaction}
use sensei.Wallet.Refines.{IsProcessable, concerns_us, details}
use sensei.Wallet.Effects.{process_tx-utxo_at, process_tx-transaction_at, process_tx-foreign}
use sensei.Wallet.Indexes.{keychain_row, IsRegistered, raised_to, bump_index-raises}
use sensei.Wallet.Indexes.Children.{children, HasRoom}
use sensei.Codec.Unary.{of_unary, unary, get_many, ones}
use sensei.Wallet.Operations.{del_last_index, set_sync_time}
use sensei.Wallet.Reads.{get_sync_time}
use sensei.Wallet.Sync.{get_sync_time-set_sync_time}
use sensei.Wallet.Types.{KeychainKind}
use sensei.Wallet.Process.{process_mempool_tx}
use sensei.Wallet.Mempool.{AreRaised, process_mempool_tx-indexes}

raw_tx_of-funded : raw_tx_of memory funded (codes "tx1") ≡ some payment
unfolding raw_tx_of
raw_tx_of-funded = ground (
  arith,
  =text_iff (codes "node") (codes "node"),
  =text_iff (hexed memory.txid_codec (codes "tx1")) (hexed memory.txid_codec (codes "tx1")),
  memory-IsUp.tx_law.decode-encode payment,
)

pub path_of-funded : path_of memory funded our_script ≡ some (external, 3)
unfolding path_of
path_of-funded = ground (
  arith,
  =text_iff (codes "node") (codes "node"),
  =text_iff (hexed memory.script_codec our_script) (hexed memory.script_codec our_script),
  memory-IsUp.keychain_codec_law.decode-encode external,
)

output_of-funded :
    output_of memory funded (record { txid = codes "tx1"; vout = 0 })
    ≡ some (record { value = 5000; script_pubkey = our_script })
unfolding output_of
output_of-funded = ground (arith, raw_tx_of-funded)

pub spending-IsProcessable : IsProcessable memory funded spending
unfolding spent_total total
spending-IsProcessable = record {
  readable = funded-IsReadable;
  spendable = ((inside, omega arith), tt);
  positions = omega arith;
  values = omega arith;
  inputs = ground (arith, output_of-funded);
}
  where
    inside :
        (tx : Transaction) → raw_tx_of memory funded (codes "tx1") ≡ some tx → 0 < length tx.output
    inside tx e =
        let same : payment ≡ tx = ground (arith, raw_tx_of-funded) in rw (← same) (omega arith)

spending-concerns_us : concerns_us memory funded spending ≡ true
unfolding own_total
spending-concerns_us = ground (arith, path_of-funded)

process_tx-utxo_at_example :
    ((process_tx memory spending none none no_deriv funded).0
      ≡ ok (derivs (path_of memory funded) no_deriv spending.output))
    × ((o : OutPoint)
        → utxo_at memory (process_tx memory spending none none no_deriv funded).1 o
          ≡ elim (if is_spent_by (own_output memory funded) spending.input o
              then none
              else utxo_at memory funded o) [
                | some r ↦ some r
                | none ↦ new_at memory (path_of memory funded) spending.txid spending.output o
              ])
process_tx-utxo_at_example =
    process_tx-utxo_at memory memory-IsUp spending none none no_deriv funded spending-IsProcessable

process_tx-transaction_at_example :
    transaction_at memory
      (process_tx memory spending (some 7) (some 9) no_deriv funded).1
      (codes "tx2")
    ≡ some (elim (transaction_at memory funded (codes "tx2")) [
      | none ↦ new_transaction memory (details memory funded spending (some 7) (some 9))
      | some row ↦ with_details memory (details memory funded spending (some 7) (some 9)) row
    ])
process_tx-transaction_at_example =
    process_tx-transaction_at memory memory-IsUp spending (some 7) (some 9) no_deriv funded
      spending-IsProcessable spending-concerns_us

-- A transaction between others.
abbrev foreign : Transaction
foreign = record {
  txid = codes "tx3";
  input = [];
  output = record { value = 4000; script_pubkey = codes "theirs" } ∷ [];
}

path_of-theirs : path_of memory funded (codes "theirs") ≡ none
unfolding path_of
path_of-theirs =
    ground (
      arith,
      hexed_iff memory.script_codec memory-IsUp.script_law our_script (codes "theirs"),
      apart,
    )
  where
    apart : our_script ≡ codes "theirs" → ⊥
    apart e = ground (arith, ap length e)

foreign-IsProcessable : IsProcessable memory funded foreign
unfolding spent_total total
foreign-IsProcessable = record {
  readable = funded-IsReadable;
  spendable = tt;
  positions = omega arith;
  values = omega arith;
  inputs = omega arith;
}

foreign-concerns_us : concerns_us memory funded foreign ≡ false
unfolding own_total spent_total
foreign-concerns_us = ground (arith, path_of-theirs)

process_tx-foreign_example :
    (process_tx memory foreign none none no_deriv funded).1.transactions ≡ funded.transactions
process_tx-foreign_example =
    process_tx-foreign memory memory-IsUp foreign none none no_deriv funded foreign-IsProcessable
      foreign-concerns_us

kept_external : keychain_row memory funded external ≡ some (keychain_at external 2)
unfolding ◌=text◌ unary ones
kept_external = refl

kept_internal : keychain_row memory funded internal ≡ some (keychain_at internal 5)
unfolding ◌=text◌ unary ones
kept_internal = refl

pub funded-IsRegistered : (k : KeychainKind) → IsRegistered memory funded k
funded-IsRegistered external = (keychain_at external 2, kept_external, refl)
funded-IsRegistered internal = (keychain_at internal 5, kept_internal, refl)

bump_index-raises_example :
    let (r, st') = bump_index memory external (some 3) funded in
    (r ≡ ok tt)
    × (keychain_row memory st' external
        ≡ some (record (keychain_at external 2) { last_derivation_index = raised_to 2 (some 3) }))
    × ((other : KeychainKind)
        → (external =kind other) ≡ false
        → keychain_row memory st' other ≡ keychain_row memory funded other)
bump_index-raises_example =
    bump_index-raises memory memory-IsUp external (some 3) funded (keychain_at external 2)
      kept_external refl (λ child e. ground (arith, e))

get_sync_time-set_sync_time_example :
    let (r, st') = set_sync_time memory (record { height = 7; timestamp = 5 }) funded in
    (r ≡ ok tt) × ((get_sync_time memory st').0 ≡ panic)
unfolding of_unary unary get_many ones
get_sync_time-set_sync_time_example =
    get_sync_time-set_sync_time memory memory-IsUp (record { height = 7; timestamp = 5 }) funded
      refl refl

pub spending-HasRoom :
    (k : KeychainKind) → All HasRoom (children (path_of memory funded) k spending.output)
spending-HasRoom external =
    let paid : children (path_of memory funded) external spending.output ≡ 3 ∷ [] =
      ground (arith, path_of-funded) in
    subst (All HasRoom) (sym paid) (omega arith, tt)
spending-HasRoom internal =
    let paid : children (path_of memory funded) internal spending.output ≡ [] =
      ground (arith, path_of-funded) in
    subst (All HasRoom) (sym paid) tt

process_mempool_tx-indexes_example :
    let (r, st') = process_mempool_tx memory spending funded in
    (r ≡ ok tt)
    × AreRaised memory (λ k. children (path_of memory funded) k spending.output) funded st'
process_mempool_tx-indexes_example =
    process_mempool_tx-indexes memory memory-IsUp spending funded spending-IsProcessable
      funded-IsRegistered spending-HasRoom
