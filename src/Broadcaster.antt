-- ===== src/Broadcaster.antt =====
-- senseicore/src/chain/broadcaster.rs: a transaction goes out once it was offered as often as its
-- debounce says.
mod Tests
pub mod Debounce
use sensei.Prelude.{
  ℕ, suc, ◌+◌, ◌-◌, ◌%◌, ◌^◌, ◌==◌, Bool, true, false, Option, none, some, List, [], ◌∷◌, ◌++◌,
  Text, Outcome, ok, err, panic, if◌then◌else◌,
}
use sensei.Maps.{lookup, insert}
use sensei.Wallet.Types.{WalletDatabase, Stored, Transaction}
use sensei.Wallet.Store.{Error}
use sensei.Wallet.Process.{process_mempool_tx}

-- `broadcasts` holds what was handed to the chain's broadcaster and `events` the txids of the events
-- that were sent, both in order; `wallet` is what the wallet's tables hold.
pub record SenseiBroadcaster : Type 0 where
  pub debounce : List (Text × ℕ)
  pub broadcasts : List Transaction
  pub events : List Text
  pub wallet : Stored

-- `*count -= 1` on `usize`, in a release build.
abbrev pub decrement : ℕ → ℕ
decrement count = (count + 2 ^ 64 - 1) % 2 ^ 64

unfoldable pub set_debounce : Text → ℕ → SenseiBroadcaster → SenseiBroadcaster
set_debounce txid count b = record b { debounce = insert txid count b.debounce }

module _ (w : WalletDatabase) where
  unfoldable pub broadcast :
      Transaction → SenseiBroadcaster → Outcome Error (Unit {0}) × SenseiBroadcaster
  broadcast tx b =
      let sent = b.broadcasts ++ tx ∷ [] in
      let (r, wallet) = process_mempool_tx w tx b.wallet in
      elim r [
        | ok _ ↦ (
          ok tt,
          record b { broadcasts = sent; wallet = wallet; events = b.events ++ tx.txid ∷ [] },
        )
        | err e ↦ (err e, record b { broadcasts = sent; wallet = wallet })
        | panic ↦ (panic, record b { broadcasts = sent; wallet = wallet })
      ]

  unfoldable pub broadcast_transaction :
      Transaction → SenseiBroadcaster → Outcome Error (Unit {0}) × SenseiBroadcaster
  broadcast_transaction tx b = elim (lookup tx.txid b.debounce) [
    | none ↦ broadcast tx b
    | some count ↦
        let left = decrement count in
        let b' = record b { debounce = insert tx.txid left b.debounce } in
        if left == 0 then broadcast tx b' else (ok tt, b')
  ]
