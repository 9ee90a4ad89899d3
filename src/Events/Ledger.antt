-- ===== src/Events/Ledger.antt =====
-- The payments of a node as a ledger, a row for each hash, and what an event of the channel manager
-- does to it.
use sensei.Prelude.{
  ℕ, ◌≡◌, refl, sym, ap, ◌∙◌, true, Option, none, some, List, Text, ◌=text◌, =text_iff, ok, panic,
  Outcome, find, arith, Bool-cases, Option-cases, inl, inr, if◌then◌else◌, ltb, ◌^◌,
}
use mathlib.Core.Option
use sensei.Sql.{IsTable}
use sensei.Sql.Laws.{put}
use sensei.Payments.{
  PaymentRow, PaymentError, same_payment, by_hash, succeeded, failed, status_text, update_payment,
  insert_payment,
}
use sensei.Payments.Lookup.{find_payment_lem, update_payment-find, find-put_payment, by_hash_sound}
use sensei.Events.{
  Event, PaymentPurpose, open_channel_request, funding_generation_ready, payment_received,
  payment_claimed, payment_sent, payment_path_successful, payment_path_failed, payment_failed,
  payment_forwarded, pending_htlcs_forwardable, spendable_outputs, channel_closed, discard_funding,
  preimage_of, secret_of, NodeState, LightningNodeEventHandler, handle_event,
  on_open_channel_request, on_funding_generation_ready, on_payment_received, on_payment_claimed,
  on_payment_sent, on_payment_failed, on_pending_htlcs_forwardable, on_spendable_outputs,
}

abbrev pub Ledger : Type 0
Ledger = Text → Option PaymentRow

abbrev pub ledger : Text → List PaymentRow → Ledger
ledger node_id rows hash = find (by_hash node_id hash) rows

-- The row of a payment that was claimed, sent or given up.
abbrev pub claimed : PaymentPurpose → ℕ → PaymentRow → PaymentRow
claimed purpose amount r = record r {
  status = status_text succeeded;
  preimage = preimage_of purpose;
  secret = secret_of purpose;
  amt_msat = some amount;
}

abbrev pub paid : Text → PaymentRow → PaymentRow
paid preimage r = record r { preimage = some preimage; status = status_text succeeded }

abbrev pub given_up : PaymentRow → PaymentRow
given_up r = record r { status = status_text failed }

-- The change of one entry.
abbrev pub change : Text → (PaymentRow → PaymentRow) → Ledger → Ledger
change hash f l k = if hash =text k then Option.map f (l k) else l k

-- What an event does to the ledger. A payment that is not in it stays out of it.
abbrev pub transition : Event → Ledger → Ledger
transition (payment_claimed hash purpose amount) l =
    if ltb amount (2 ^ 63) then change hash (claimed purpose amount) l else l
transition (payment_sent preimage hash) l = change hash (paid preimage) l
transition (payment_failed hash) l = change hash given_up l
transition (open_channel_request id counterparty) l = l
transition (funding_generation_ready id value script counterparty user) l = l
transition (payment_received hash purpose amount) l = l
transition payment_path_successful l = l
transition payment_path_failed l = l
transition payment_forwarded l = l
transition (pending_htlcs_forwardable time) l = l
transition (spendable_outputs outputs) l = l
transition channel_closed l = l
transition discard_funding l = l

-- The rows with one payment changed, if it is there.
abbrev pub with_payment :
    Text → Text → (PaymentRow → PaymentRow) → List PaymentRow → List PaymentRow
with_payment node_id hash f rows = elim (find (by_hash node_id hash) rows) [
  | some r ↦ put (by_hash node_id hash) (f r) rows
  | none ↦ rows
]

ledger-with_payment :
    (node_id hash k : Text) (f : PaymentRow → PaymentRow) (rows : List PaymentRow)
    → ((r : PaymentRow) → (f r).node_id ≡ r.node_id)
    → ((r : PaymentRow) → (f r).payment_hash ≡ r.payment_hash)
    → ledger node_id (with_payment node_id hash f rows) k ≡ change hash f (ledger node_id rows) k
ledger-with_payment node_id hash k f rows p q =
    let here = λ (same : (hash =text k) ≡ true).
      ap (λ x. find (by_hash node_id x) rows) ((=text_iff hash k).0 same) in
    elim (Option-cases (find (by_hash node_id hash) rows)) [
      | inl e ↦ elim (Bool-cases (hash =text k)) [
        | inl same ↦
            let gone : find (by_hash node_id k) rows ≡ none = sym (here same) ∙ e in
            ground (arith, e, same, gone)
        | inr apart ↦ ground (arith, e, apart)
      ]
      | inr (r, e) ↦
          let (same_node, same_hash) = by_hash_sound node_id hash rows r e in
          let entry =
            find-put_payment node_id hash k (f r) rows r e (p r ∙ same_node) (q r ∙ same_hash) in
          elim (Bool-cases (hash =text k)) [
            | inl same ↦
                let found : find (by_hash node_id k) rows ≡ some r = sym (here same) ∙ e in
                ground (arith, e, same, found, entry)
            | inr apart ↦ ground (arith, e, apart, entry)
          ]
    ]

-- How the claim of a payment ends.
abbrev pub claim_outcome : ℕ → Option PaymentRow → Outcome PaymentError (Unit {0})
claim_outcome amount (some r) = if ltb amount (2 ^ 63) then ok tt else panic
claim_outcome amount none = panic

module _ (h : LightningNodeEventHandler) (law : IsTable same_payment true h.payment) where
  -- The update of a payment that is found, outside its key.
  updated :
      (hash : Text) (f : PaymentRow → PaymentRow) (rows : List PaymentRow) (r : PaymentRow)
      → find (by_hash h.node_id hash) rows ≡ some r
      → (f r).node_id ≡ r.node_id
      → (f r).payment_hash ≡ r.payment_hash
      → update_payment h.payment (f r) rows ≡ (ok tt, with_payment h.node_id hash f rows)
  updated hash f rows r e p q =
      let (same_node, same_hash) = by_hash_sound h.node_id hash rows r e in
      rw (with_payment, e)
        (update_payment-find h.payment law h.node_id hash (f r) rows r e (p ∙ same_node)
          (q ∙ same_hash))

  pub on_payment_sent-rows :
      (preimage hash : Text) (st : NodeState)
      → on_payment_sent h preimage hash st
        ≡ (ok tt, record st { payments = with_payment h.node_id hash (paid preimage) st.payments })
  unfolding on_payment_sent
  on_payment_sent-rows preimage hash st =
      let look = find_payment_lem h.payment law h.node_id hash st.payments in
      elim (Option-cases (find (by_hash h.node_id hash) st.payments)) [
        | inl e ↦ ground (arith, look, e)
        | inr (r, e) ↦
            ground (arith, look, e, updated hash (paid preimage) st.payments r e refl refl)
      ]

  pub on_payment_failed-rows :
      (hash : Text) (st : NodeState)
      → on_payment_failed h hash st
        ≡ (ok tt, record st { payments = with_payment h.node_id hash given_up st.payments })
  unfolding on_payment_failed
  on_payment_failed-rows hash st =
      let look = find_payment_lem h.payment law h.node_id hash st.payments in
      elim (Option-cases (find (by_hash h.node_id hash) st.payments)) [
        | inl e ↦ ground (arith, look, e)
        | inr (r, e) ↦ ground (arith, look, e, updated hash given_up st.payments r e refl refl)
      ]

  pub on_payment_claimed-rows :
      (hash : Text) (purpose : PaymentPurpose) (amount : ℕ) (st : NodeState)
      → on_payment_claimed h hash purpose amount st ≡ (
        claim_outcome amount (ledger h.node_id st.payments hash),
        record st {
          payments =
              if ltb amount (2 ^ 63)
              then with_payment h.node_id hash (claimed purpose amount) st.payments
              else st.payments;
        },
      )
  unfolding on_payment_claimed insert_payment
  on_payment_claimed-rows hash purpose amount st =
      let look = find_payment_lem h.payment law h.node_id hash st.payments in
      elim (Bool-cases (ltb amount (2 ^ 63))) [
        | inr large ↦ ground (arith, look, large)
        | inl small ↦ elim (Option-cases (find (by_hash h.node_id hash) st.payments)) [
          | inl e ↦ ground (arith, look, small, e)
          | inr (r, e) ↦ ground (
            arith,
            look,
            small,
            e,
            updated hash (claimed purpose amount) st.payments r e refl refl,
          )
        ]
      ]

  claim_change :
      (hash k : Text) (purpose : PaymentPurpose) (amount : ℕ) (st : NodeState)
      → ledger h.node_id
          (if ltb amount (2 ^ 63)
            then with_payment h.node_id hash (claimed purpose amount) st.payments
            else st.payments)
          k
        ≡ transition (payment_claimed hash purpose amount) (ledger h.node_id st.payments) k
  claim_change hash k purpose amount st =
      let change_lem =
        ledger-with_payment h.node_id hash k (claimed purpose amount) st.payments (λ r. refl)
          (λ r. refl) in
      elim (Bool-cases (ltb amount (2 ^ 63))) [
        | inl small ↦ rw small change_lem
        | inr large ↦ rw large refl
      ]

  -- For a table of payments that is up: after any event each payment is what the event makes of it
  -- alone: a claim whose amount fits its column sets status, preimage, secret and amount, a sent
  -- payment its preimage and status, a failed one its status, of the payment of its hash and of no
  -- other; no event adds a payment.
  pub handle_event-ledger :
      (e : Event) (st : NodeState) (k : Text)
      → ledger h.node_id (handle_event h e st).1.payments k
        ≡ transition e (ledger h.node_id st.payments) k
  unfolding handle_event
  handle_event-ledger (open_channel_request id counterparty) st k =
      unfold on_open_channel_request in (ground arith)
  handle_event-ledger (funding_generation_ready id value script counterparty user) st k =
      unfold on_funding_generation_ready in (ground arith)
  handle_event-ledger (payment_received hash purpose amount) st k =
      unfold on_payment_received in (ground arith)
  handle_event-ledger (payment_claimed hash purpose amount) st k =
      rw (on_payment_claimed-rows hash purpose amount st) (claim_change hash k purpose amount st)
  handle_event-ledger (payment_sent preimage hash) st k =
      rw (on_payment_sent-rows preimage hash st)
        (ledger-with_payment h.node_id hash k (paid preimage) st.payments (λ r. refl) (λ r. refl))
  handle_event-ledger payment_path_successful st k = refl
  handle_event-ledger payment_path_failed st k = refl
  handle_event-ledger (payment_failed hash) st k =
      rw (on_payment_failed-rows hash st)
        (ledger-with_payment h.node_id hash k given_up st.payments (λ r. refl) (λ r. refl))
  handle_event-ledger payment_forwarded st k = refl
  handle_event-ledger (pending_htlcs_forwardable time) st k =
      unfold on_pending_htlcs_forwardable in (ground arith)
  handle_event-ledger (spendable_outputs outputs) st k =
      unfold on_spendable_outputs in (ground arith)
  handle_event-ledger channel_closed st k = refl
  handle_event-ledger discard_funding st k = refl

  -- For a table of payments that is up: the claim of a payment goes through exactly where its row is in
  -- the table and the amount fits its column, and panics otherwise, also for a payment that nobody
  -- announced, which the handler means to insert.
  pub handle_event-claimed :
      (hash : Text) (purpose : PaymentPurpose) (amount : ℕ) (st : NodeState)
      → (handle_event h (payment_claimed hash purpose amount) st).0
        ≡ claim_outcome amount (ledger h.node_id st.payments hash)
  unfolding handle_event
  handle_event-claimed hash purpose amount st =
      ap (λ x. x.0) (on_payment_claimed-rows hash purpose amount st)
