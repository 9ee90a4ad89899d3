-- ===== src/Events/Reach.antt =====
-- The payments of a node over its life: every event and every request that writes them, in any order.
use sensei.Prelude.{
  ℕ, ◌≡◌, refl, ◌∙◌, true, some, List, [], Text, Outcome, find, arith, Bool-cases, Option-cases,
  inl, inr, ltb, ◌^◌,
}
use sensei.Sql.{IsTable}
use sensei.Payments.{
  PaymentError, PaymentRow, same_payment, by_hash, failed, Answer, Invoice, keysend, send_payment,
  get_invoice, label_payment, delete_payment,
}
use sensei.Payments.Lookup.{by_hash_sound}
use sensei.Payments.Invariant.{
  HasProof, AreSound, unfinished, put-AreSound, label_payment-AreSound, delete_payment-AreSound,
  keysend-AreSound, send_payment-AreSound, get_invoice-AreSound,
}
use sensei.Events.{
  Event, open_channel_request, funding_generation_ready, payment_received, payment_claimed,
  payment_sent, payment_path_successful, payment_path_failed, payment_failed, payment_forwarded,
  pending_htlcs_forwardable, spendable_outputs, channel_closed, discard_funding, preimage_of,
  NodeState, LightningNodeEventHandler, handle_event, on_payments, on_open_channel_request,
  on_funding_generation_ready, on_payment_received, on_pending_htlcs_forwardable,
  on_spendable_outputs,
}
use sensei.Events.Ledger.{
  claimed, paid, given_up, with_payment, on_payment_sent-rows, on_payment_failed-rows,
  on_payment_claimed-rows,
}

-- A payment is claimed with its preimage: `claim_funds` is only called with one.
abbrev pub IsClaimable : Event → Type 0
IsClaimable (payment_claimed hash purpose amount) = (p : Text) × (preimage_of purpose ≡ some p)
IsClaimable _ = Unit

-- The states that a node comes to, from one without payments, whatever the outcome of each step was.
pub data Reaches (h : LightningNodeEventHandler) : NodeState → Type 0 where
  begins : (st : NodeState) → st.payments ≡ [] → Reaches h st
  handles :
      (st : NodeState) (e : Event)
      → Reaches h st
      → IsClaimable e
      → Reaches h (handle_event h e st).1
  invoices :
      (st : NodeState) (created : Outcome PaymentError Invoice) (amt_msat : ℕ) (description : Text)
      → Reaches h st
      → Reaches h (on_payments (get_invoice h.payment h.node_id created amt_msat description) st).1
  pays :
      (st : NodeState) (answer : Answer) (invoice : Invoice)
      → Reaches h st
      → Reaches h (on_payments (send_payment h.payment h.node_id answer invoice) st).1
  keysends :
      (st : NodeState) (answer : Answer) (preimage hash : Text) (amt_msat : ℕ)
      → Reaches h st
      → Reaches h (on_payments (keysend h.payment h.node_id answer preimage hash amt_msat) st).1
  labels :
      (st : NodeState) (hash label : Text)
      → Reaches h st
      → Reaches h (on_payments (label_payment h.payment h.node_id hash label) st).1
  deletes :
      (st : NodeState) (hash : Text)
      → Reaches h st
      → Reaches h (on_payments (delete_payment h.payment h.node_id hash) st).1

module _ (h : LightningNodeEventHandler) (law : IsTable same_payment true h.payment) where
  with_payment-AreSound :
      (hash : Text) (f : PaymentRow → PaymentRow) (rows : List PaymentRow)
      → AreSound h.node_id rows
      → ((r : PaymentRow) → (f r).node_id ≡ r.node_id)
      → ((r : PaymentRow) → (f r).payment_hash ≡ r.payment_hash)
      → ((r : PaymentRow) → HasProof (f r))
      → AreSound h.node_id (with_payment h.node_id hash f rows)
  with_payment-AreSound hash f rows s p q proof =
      elim (Option-cases (find (by_hash h.node_id hash) rows)) [
        | inl e ↦ rw (with_payment, e) s
        | inr (r, e) ↦
            let (same_node, same_hash) = by_hash_sound h.node_id hash rows r e in
            rw (with_payment, e)
              (put-AreSound h.payment law h.node_id hash (f r) r rows s e (p r ∙ same_node)
                (q r ∙ same_hash) (proof r))
      ]

  handle_event-AreSound :
      (e : Event) (st : NodeState)
      → IsClaimable e
      → AreSound h.node_id st.payments
      → AreSound h.node_id (handle_event h e st).1.payments
  unfolding handle_event
  handle_event-AreSound (open_channel_request id counterparty) st c s =
      unfold on_open_channel_request in (ground arith)
  handle_event-AreSound (funding_generation_ready id value script counterparty user) st c s =
      unfold on_funding_generation_ready in (ground arith)
  handle_event-AreSound (payment_received hash purpose amount) st c s =
      unfold on_payment_received in (ground arith)
  handle_event-AreSound (payment_claimed hash purpose amount) st (p, c) s =
      rw (on_payment_claimed-rows h law hash purpose amount st)
        (elim (Bool-cases (ltb amount (2 ^ 63))) [
          | inl small ↦ rw small (
              with_payment-AreSound hash (claimed purpose amount) st.payments s (λ r. refl)
                (λ r. refl) (λ r done. (p, c)))
          | inr large ↦ rw large s
        ])
  handle_event-AreSound (payment_sent preimage hash) st c s =
      rw (on_payment_sent-rows h law preimage hash st) (
        with_payment-AreSound hash (paid preimage) st.payments s (λ r. refl) (λ r. refl)
          (λ r done. (preimage, refl)))
  handle_event-AreSound payment_path_successful st c s = s
  handle_event-AreSound payment_path_failed st c s = s
  handle_event-AreSound (payment_failed hash) st c s = rw (on_payment_failed-rows h law hash st) (
      with_payment-AreSound hash given_up st.payments s (λ r. refl) (λ r. refl)
        (λ r done. absurd (unfinished failed (λ e. ground (arith, e)) done)))
  handle_event-AreSound payment_forwarded st c s = s
  handle_event-AreSound (pending_htlcs_forwardable time) st c s =
      unfold on_pending_htlcs_forwardable in (ground arith)
  handle_event-AreSound (spendable_outputs outputs) st c s =
      unfold on_spendable_outputs in (ground arith)
  handle_event-AreSound channel_closed st c s = s
  handle_event-AreSound discard_funding st c s = s

  -- For a table of payments that is up, and a node that claims payments with their preimage: whatever
  -- events and requests it has seen, and however each of them ended, no two rows have the same hash,
  -- all are the node's own, and each payment that succeeded has its preimage.
  pub Reaches-AreSound : (st : NodeState) → Reaches h st → AreSound h.node_id st.payments
  Reaches-AreSound _ (begins st empty) = rw empty (record { unique = tt; sound = tt })
  Reaches-AreSound _ (handles st e before c) =
      handle_event-AreSound e st c (Reaches-AreSound st before)
  Reaches-AreSound _ (invoices st created amt_msat description before) =
      get_invoice-AreSound h.payment law h.node_id created amt_msat description st.payments
        (Reaches-AreSound st before)
  Reaches-AreSound _ (pays st answer invoice before) =
      send_payment-AreSound h.payment law h.node_id answer invoice st.payments
        (Reaches-AreSound st before)
  Reaches-AreSound _ (keysends st answer preimage hash amt_msat before) =
      keysend-AreSound h.payment law h.node_id answer preimage hash amt_msat st.payments
        (Reaches-AreSound st before)
  Reaches-AreSound _ (labels st hash label before) =
      label_payment-AreSound h.payment law h.node_id hash label st.payments
        (Reaches-AreSound st before)
  Reaches-AreSound _ (deletes st hash before) =
      delete_payment-AreSound h.payment law h.node_id hash st.payments (Reaches-AreSound st before)
