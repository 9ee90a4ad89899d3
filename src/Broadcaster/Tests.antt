-- ===== src/Broadcaster/Tests.antt =====
-- A transaction that goes out with its third offer.
use sensei.Prelude.{◌≡◌, ◌++◌, [], ◌∷◌, ltb, if◌then◌else◌, arith}
use sensei.Broadcaster.{SenseiBroadcaster, set_debounce}
use sensei.Broadcaster.Debounce.{offered, broadcast_transaction-debounced}
use sensei.Wallet.Tests.Memory.{memory, funded, payment}

abbrev idle : SenseiBroadcaster
idle = record { debounce = []; broadcasts = []; events = []; wallet = funded }

broadcast_transaction-debounced_example :
    (offered memory 3 payment (set_debounce payment.txid 3 idle)).broadcasts
    ≡ (if ltb 3 3 then [] else [] ++ payment ∷ [])
broadcast_transaction-debounced_example =
    broadcast_transaction-debounced memory 3 3 payment idle (omega arith) (omega arith)
      (omega arith)
