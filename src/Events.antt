-- ===== src/Events.antt =====
-- senseicore/src/event_handler.rs: what a node does on an event of its channel manager. What is only
-- printed is left out.
mod Tests
pub mod Ledger
pub mod Reach
pub mod Trust
use sensei.Prelude.{
  ℕ, ◌+◌, ◌*◌, ◌%◌, ◌^◌, Bool, true, false, Option, none, some, List, [], ◌∷◌, ◌++◌, Text, ltb,
  Outcome, ok, err, panic, expect_some, if◌then◌else◌,
}
use mathlib.Core.Option
use sensei.Sql.{Table}
use sensei.State.{Run, ◌>>=◌, ◌>>◌, pure, lift, unwrapped}
use sensei.Wallet.Types.{WalletDatabase, Stored, Transaction}
use sensei.Wallet.Store.{Error}
use sensei.Broadcaster.{SenseiBroadcaster, broadcast_transaction}
use sensei.Payments.{
  PaymentRow, PaymentError, database, Payments, HtlcStatus, succeeded, failed, status_text,
  spontaneous_incoming, origin_text, to_i64, find_payment, update_payment, insert_payment,
}
use sensei.Peers.{PeerRow, find_peer}

-- How a payment was asked for: with its preimage, if it is known, and its secret.
pub data PaymentPurpose : Type 0 where
  invoice_payment : Option Text → Text → PaymentPurpose
  spontaneous_payment : Text → PaymentPurpose

-- The events, with the fields that are read. Keys, hashes, preimages and secrets are hexadecimal texts.
pub data Event : Type 0 where
  open_channel_request : (temporary_channel_id counterparty_node_id : Text) → Event
  funding_generation_ready :
      (temporary_channel_id : Text) (channel_value_satoshis : ℕ)
      (output_script counterparty_node_id : Text) (user_channel_id : ℕ)
      → Event
  payment_received : (payment_hash : Text) → PaymentPurpose → (amount_msat : ℕ) → Event
  payment_claimed : (payment_hash : Text) → PaymentPurpose → (amount_msat : ℕ) → Event
  payment_sent : (payment_preimage payment_hash : Text) → Event
  payment_path_successful payment_path_failed : Event
  payment_failed : (payment_hash : Text) → Event
  payment_forwarded : Event
  pending_htlcs_forwardable : (time_forwardable : ℕ) → Event
  spendable_outputs : List Text → Event
  channel_closed discard_funding : Event

-- What the handler and the requests to a node ask of the channel manager: channel ids and keys.
pub data Call : Type 0 where
  close_channel force_close_channel : Text → Text → Call
  accept_inbound_channel_from_trusted_peer_0conf : Text → Text → ℕ → Call
  accept_inbound_channel : Text → Text → ℕ → Call
  claim_funds : Text → Call
  process_pending_htlc_forwards : Call

-- `SenseiEvent::FundingGenerationReady`
pub record FundingReady : Type 0 where
  pub node_id : Text
  pub temporary_channel_id : Text
  pub channel_value_satoshis : ℕ
  pub output_script : Text
  pub user_channel_id : ℕ
  pub counterparty_node_id : Text

-- `receivers` says whether someone listens to the channel of events.
pub record NodeState : Type 0 where
  pub payments : List PaymentRow
  pub peers : List PeerRow
  pub calls : List Call
  pub sent : List FundingReady
  pub receivers : Bool
  pub broadcaster : SenseiBroadcaster

-- `is_witness_program` is `WitnessProgram::from_scriptpubkey`, `get_address` and
-- `spend_spendable_outputs` are those of bdk and of the keys manager, the latter at the fee rate of now.
pub record LightningNodeEventHandler : Type 0 where
  pub node_id : Text
  pub payment : Table PaymentRow
  pub peer : Table PeerRow
  pub wallet : WalletDatabase
  pub is_witness_program : Text → Bool
  pub get_address : Stored → Outcome Error Text × Stored
  pub spend_spendable_outputs : List Text → Text → Outcome Error Transaction

abbrev pub Handling {ℓ} : Type ℓ → Type ℓ
Handling A = Run NodeState PaymentError A

abbrev pub called : Call → Handling (Unit {0})
called c st = (ok tt, record st { calls = st.calls ++ c ∷ [] })

abbrev pub on_payments {ℓ} : {A : Type ℓ} → Payments A → Handling A
on_payments m st = let (r, rows) = m st.payments in (r, record st { payments = rows })

-- `if let Ok(..)`, and a result that is dropped: an error is gone, a panic is not.
abbrev pub ignored : {A : Type 0} → A → Handling A → Handling A
ignored d m st = let (r, st') = m st in (elim r [ ok a ↦ ok a | err e ↦ ok d | panic ↦ panic ], st')

abbrev pub preimage_of : PaymentPurpose → Option Text
preimage_of (invoice_payment preimage secret) = preimage
preimage_of (spontaneous_payment preimage) = some preimage

abbrev pub secret_of : PaymentPurpose → Option Text
secret_of (invoice_payment preimage secret) = some secret
secret_of (spontaneous_payment preimage) = none

abbrev pub claimed_row : Text → Option Text → Option Text → ℕ → Text → PaymentRow
claimed_row payment_hash preimage secret amt_msat id = record {
  node_id = id;
  payment_hash = payment_hash;
  status = status_text succeeded;
  origin = origin_text spontaneous_incoming;
  amt_msat = some amt_msat;
  fee_paid_msat = none;
  preimage = preimage;
  secret = secret;
  label = none;
  invoice = none;
}

module _ (h : LightningNodeEventHandler) where
  unfoldable pub is_trusted_peer : Text → List PeerRow → Bool
  is_trusted_peer counterparty_node_id peers =
      elim (find_peer h.peer h.node_id counterparty_node_id peers).0 [
        | ok found ↦ elim found [ some peer ↦ peer.zero_conf | none ↦ false ]
        | err e ↦ false
        | panic ↦ false
      ]

  unfoldable pub on_open_channel_request : Text → Text → Handling (Unit {0})
  on_open_channel_request temporary_channel_id counterparty_node_id st =
      if is_trusted_peer counterparty_node_id st.peers
      then called
          (accept_inbound_channel_from_trusted_peer_0conf temporary_channel_id counterparty_node_id
            1)
          st
      else called (accept_inbound_channel temporary_channel_id counterparty_node_id 1) st

  -- The address is only made to see that there is one, `send` fails where nobody listens.
  unfoldable pub on_funding_generation_ready : Text → ℕ → Text → Text → ℕ → Handling (Unit {0})
  on_funding_generation_ready temporary_channel_id channel_value_satoshis output_script
        counterparty_node_id user_channel_id st =
      let event : FundingReady = record {
        node_id = h.node_id;
        temporary_channel_id = temporary_channel_id;
        channel_value_satoshis = channel_value_satoshis;
        output_script = output_script;
        user_channel_id = user_channel_id;
        counterparty_node_id = counterparty_node_id;
      } in
      if h.is_witness_program output_script
      then if st.receivers then (ok tt, record st { sent = st.sent ++ event ∷ [] }) else (panic, st)
      else (panic, st)

  unfoldable pub on_payment_received : PaymentPurpose → Handling (Unit {0})
  on_payment_received purpose = do
    preimage ← lift (expect_some (preimage_of purpose))
    called (claim_funds preimage)

  unfoldable pub on_payment_claimed : Text → PaymentPurpose → ℕ → Handling (Unit {0})
  on_payment_claimed payment_hash purpose amount_msat = do
    existing_payment ← ignored none (on_payments (find_payment h.payment h.node_id payment_hash))
    let preimage = preimage_of purpose
    let secret = secret_of purpose
    amt ← lift (to_i64 amount_msat)
    elim existing_payment [
      | some payment ↦ unwrapped (
          on_payments (
            update_payment h.payment (record payment {
              status = status_text succeeded;
              preimage = preimage;
              secret = secret;
              amt_msat = some amt;
            })))
      | none ↦ unwrapped (
          on_payments
            (insert_payment h.payment none (claimed_row payment_hash preimage secret amt)))
    ]

  unfoldable pub on_payment_sent : Text → Text → Handling (Unit {0})
  on_payment_sent payment_preimage payment_hash = do
    payment ← ignored none (on_payments (find_payment h.payment h.node_id payment_hash))
    elim payment [
      | some payment ↦ ignored tt (
          on_payments (
            update_payment h.payment (record payment {
              preimage = some payment_preimage;
              status = status_text succeeded;
            })))
      | none ↦ pure tt
    ]

  unfoldable pub on_payment_failed : Text → Handling (Unit {0})
  on_payment_failed payment_hash = do
    payment ← ignored none (on_payments (find_payment h.payment h.node_id payment_hash))
    elim payment [
      | some payment ↦
          ignored tt (
            on_payments (update_payment h.payment (record payment { status = status_text failed })))
      | none ↦ pure tt
    ]

  -- The wait is drawn at random between `min` and five times that, in a task of its own: where nothing
  -- lies between them the task panics, and only the task.
  unfoldable pub on_pending_htlcs_forwardable : ℕ → Handling (Unit {0})
  on_pending_htlcs_forwardable min st =
      if ltb min (min * 5 % 2 ^ 64) then called process_pending_htlc_forwards st else (ok tt, st)

  unfoldable pub on_spendable_outputs : List Text → Handling (Unit {0})
  on_spendable_outputs outputs st =
      let (address, wallet) = h.get_address st.broadcaster.wallet in
      let b = record st.broadcaster { wallet = wallet } in
      elim address [
        | ok destination ↦ elim (h.spend_spendable_outputs outputs destination) [
          | ok spending_tx ↦
              let (r, b') = broadcast_transaction h.wallet spending_tx b in
              (
                elim r [ ok _ ↦ ok tt | err e ↦ panic | panic ↦ panic ],
                record st { broadcaster = b' },
              )
          | err e ↦ (panic, record st { broadcaster = b })
          | panic ↦ (panic, record st { broadcaster = b })
        ]
        | err e ↦ (panic, record st { broadcaster = b })
        | panic ↦ (panic, record st { broadcaster = b })
      ]

  unfoldable pub handle_event : Event → Handling (Unit {0})
  handle_event (open_channel_request id counterparty) = on_open_channel_request id counterparty
  handle_event (funding_generation_ready id value script counterparty user_channel_id) =
      on_funding_generation_ready id value script counterparty user_channel_id
  handle_event (payment_received hash purpose amount) = on_payment_received purpose
  handle_event (payment_claimed hash purpose amount) = on_payment_claimed hash purpose amount
  handle_event (payment_sent preimage hash) = on_payment_sent preimage hash
  handle_event payment_path_successful = pure tt
  handle_event payment_path_failed = pure tt
  handle_event (payment_failed hash) = on_payment_failed hash
  handle_event payment_forwarded = pure tt
  handle_event (pending_htlcs_forwardable time) = on_pending_htlcs_forwardable time
  handle_event (spendable_outputs outputs) = on_spendable_outputs outputs
  handle_event channel_closed = pure tt
  handle_event discard_funding = pure tt
