-- ===== src/Events/Tests.antt =====
-- The theorems about the events, at a node with one payment and one peer.
use sensei.Prelude.{none, ◌≡◌, refl, true, false, some, List, [], ◌∷◌, ◌++◌, ok, if◌then◌else◌}
use sensei.Text.{codes}
use sensei.Sql.{list_table}
use sensei.Sql.Laws.{list_table-IsTable}
use sensei.Wallet.Tests.Memory.{memory, funded, payment}
use sensei.Broadcaster.{SenseiBroadcaster}
use sensei.Payments.{same_payment, Invoice, get_invoice}
use sensei.Payments.Invariant.{AreSound}
use sensei.Peers.{same_peer}
use sensei.Events.{
  invoice_payment, payment_claimed, payment_sent, open_channel_request,
  accept_inbound_channel_from_trusted_peer_0conf, accept_inbound_channel, NodeState,
  LightningNodeEventHandler, handle_event, on_payments,
}
use sensei.Events.Ledger.{
  ledger, transition, claim_outcome, handle_event-ledger, handle_event-claimed,
}
use sensei.Events.Reach.{begins, handles, invoices, Reaches-AreSound}
use sensei.Events.Trust.{PeerRequest, add, verdict, served, handle_event-trusted}

abbrev handler : LightningNodeEventHandler
handler = record {
  node_id = codes "node";
  payment = list_table same_payment true;
  peer = list_table same_peer true;
  wallet = memory;
  is_witness_program = λ script. true;
  get_address = λ st. (ok (codes "address"), st);
  spend_spendable_outputs = λ outputs address. ok payment;
}

abbrev quiet : SenseiBroadcaster
quiet = record { debounce = []; broadcasts = []; events = []; wallet = funded }

abbrev bare : NodeState
bare = record {
  payments = [];
  peers = [];
  calls = [];
  sent = [];
  receivers = true;
  broadcaster = quiet;
}

abbrev one_invoice : Invoice
one_invoice = record {
  payment_hash = codes "beef";
  payment_secret = codes "cafe";
  amount_milli_satoshis = some 1000;
  text = codes "lnbc";
  currency = codes "bcrt";
  description = some (codes "tea");
  expiry_time = 3600;
  timestamp = 1000;
  min_final_cltv_expiry = 18;
  route_hints = [];
  features = none;
  payee_pub_key = codes "key";
}

abbrev invoiced : NodeState
invoiced =
    (on_payments (get_invoice handler.payment handler.node_id (ok one_invoice) 1000 (codes "tea"))
      bare).1

handle_event-ledger_example :
    ledger handler.node_id
      (handle_event handler (payment_sent (codes "feed") (codes "beef")) invoiced).1.payments
      (codes "beef")
    ≡ transition
        (payment_sent (codes "feed") (codes "beef"))
        (ledger handler.node_id invoiced.payments)
        (codes "beef")
handle_event-ledger_example =
    handle_event-ledger handler (list_table-IsTable same_payment true)
      (payment_sent (codes "feed") (codes "beef")) invoiced (codes "beef")

handle_event-claimed_example :
    (handle_event handler
      (payment_claimed (codes "dead") (invoice_payment (some (codes "feed")) (codes "cafe")) 5)
      invoiced).0
    ≡ claim_outcome 5 (ledger handler.node_id invoiced.payments (codes "dead"))
handle_event-claimed_example =
    handle_event-claimed handler (list_table-IsTable same_payment true) (codes "dead")
      (invoice_payment (some (codes "feed")) (codes "cafe")) 5 invoiced

Reaches-AreSound_example :
    AreSound handler.node_id
      (handle_event handler
        (payment_claimed (codes "beef") (invoice_payment (some (codes "feed")) (codes "cafe")) 1000)
        invoiced).1.payments
Reaches-AreSound_example =
    Reaches-AreSound handler (list_table-IsTable same_payment true)
      (handle_event handler
        (payment_claimed (codes "beef") (invoice_payment (some (codes "feed")) (codes "cafe")) 1000)
        invoiced).1
      (handles invoiced
        (payment_claimed (codes "beef") (invoice_payment (some (codes "feed")) (codes "cafe")) 1000)
        (invoices bare (ok one_invoice) 1000 (codes "tea") (begins bare refl)) (codes "feed", refl))

abbrev history : List PeerRequest
history = add (codes "alice") (codes "a friend") true ∷ []

abbrev acquainted : NodeState
acquainted = record bare { peers = served handler history [] }

handle_event-trusted_example :
    handle_event handler (open_channel_request (codes "id") (codes "alice")) acquainted ≡ (
      ok tt,
      record acquainted {
        calls =
            acquainted.calls
            ++ (if verdict (codes "alice") history false
                then accept_inbound_channel_from_trusted_peer_0conf (codes "id") (codes "alice") 1
                else accept_inbound_channel (codes "id") (codes "alice") 1)
              ∷ [];
      },
    )
handle_event-trusted_example =
    handle_event-trusted handler (list_table-IsTable same_peer true) history (codes "id")
      (codes "alice") acquainted refl
