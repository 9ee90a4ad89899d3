-- ===== src/Payments.antt =====
-- The payments of a node: entity/src/payment.rs, the queries of senseicore/src/database.rs, and the
-- calls of senseicore/src/node.rs that write them. `created_at` and `updated_at` are left out.
mod Invoices
pub mod Invariant
pub mod Lookup
unfoldable pub use Invoices.*
use sensei.Prelude.{
  ℕ, ◌^◌, Bool, true, false, ◌&&◌, Option, none, some, List, [], ◌∷◌, ◌++◌, Text, ◌=text◌, ltb,
  Outcome, ok, err, panic, if◌then◌else◌,
}
use mathlib.Core.Option
use Prim.Native.String.{String}
use sensei.Text.{codes}
use sensei.Sql.{Table, DbErr, db_err}
use sensei.State.{Run, ◌>>=◌, ◌>>◌, pure, lift, unwrapped}

pub data HtlcStatus : Type 0 where
  pending succeeded failed unknown : HtlcStatus

-- `to_string`
abbrev pub status_text : HtlcStatus → Text
status_text pending = codes "pending"
status_text succeeded = codes "succeeded"
status_text failed = codes "failed"
status_text unknown = codes "unknown"

pub data PaymentOrigin : Type 0 where
  invoice_incoming invoice_outgoing spontaneous_incoming spontaneous_outgoing : PaymentOrigin

abbrev pub origin_text : PaymentOrigin → Text
origin_text invoice_incoming = codes "invoice_incoming"
origin_text invoice_outgoing = codes "invoice_outgoing"
origin_text spontaneous_incoming = codes "spontaneous_incoming"
origin_text spontaneous_outgoing = codes "spontaneous_outgoing"

pub record PaymentRow : Type 0 where
  pub node_id : Text
  pub payment_hash : Text
  pub status : Text
  pub origin : Text
  pub amt_msat : Option ℕ
  pub fee_paid_msat : Option ℕ
  pub preimage : Option Text
  pub secret : Option Text
  pub label : Option Text
  pub invoice : Option Text

-- The unique index of the table.
abbrev pub same_payment : PaymentRow → PaymentRow → Bool
same_payment a b = (b.node_id =text a.node_id) && (b.payment_hash =text a.payment_hash)

abbrev pub by_hash : Text → Text → PaymentRow → Bool
by_hash node_id payment_hash r = (r.node_id =text node_id) && (r.payment_hash =text payment_hash)

-- What a call of a node can fail with.
pub data PaymentError : Type 0 where
  database : DbErr → PaymentError
  invalid_invoice no_route no_invoice : PaymentError

abbrev pub Payments {ℓ} : Type ℓ → Type ℓ
Payments A = Run (List PaymentRow) PaymentError A

abbrev pub queried {ℓ} : {A : Type ℓ} → Outcome DbErr A → Outcome PaymentError A
queried (ok a) = ok a
queried (err e) = err (database e)
queried panic = panic

-- A write, whose rows go into the table.
abbrev pub written : Outcome DbErr (List PaymentRow) → Payments (Unit {0})
written (ok rows) old = (ok tt, rows)
written (err e) old = (err (database e), old)
written panic old = (panic, old)

-- `u64` to `i64` by `try_into().unwrap()`.
abbrev pub to_i64 : {E : Type 0} → ℕ → Outcome E ℕ
to_i64 n = if ltb n (2 ^ 63) then ok n else panic

module _ (t : Table PaymentRow) where
  unfoldable pub find_payment : Text → Text → Payments (Option PaymentRow)
  find_payment node_id payment_hash rows =
      (queried (t.one (by_hash node_id payment_hash) rows), rows)

  -- A row whose `node_id` is not set is refused: the column is NOT NULL.
  unfoldable pub insert_payment : Option Text → (Text → PaymentRow) → Payments (Unit {0})
  insert_payment none row rows = (err (database db_err), rows)
  insert_payment (some node_id) row rows = written (t.insert (row node_id) rows) rows

  unfoldable pub update_payment : PaymentRow → Payments (Unit {0})
  update_payment row rows = written (t.update row rows) rows

  unfoldable pub delete_payment : Text → Text → Payments (Unit {0})
  delete_payment node_id payment_hash = do
    found ← find_payment node_id payment_hash
    elim found [ some payment ↦ (λ rows. written (t.delete payment rows) rows) | none ↦ pure tt ]

  unfoldable pub label_payment : Text → Text → Text → Payments (Unit {0})
  label_payment node_id payment_hash label = do
    found ← find_payment node_id payment_hash
    elim found [
      | some payment ↦ update_payment (record payment { label = some label })
      | none ↦ pure tt
    ]

-- How the Lightning library answers a request to pay.
pub data Answer : Type 0 where
  initiated bad_invoice unroutable unsent : Answer

module _ (t : Table PaymentRow) (node_id : Text) where
  -- The row of a spontaneous payment, whose preimage and hash the node has chosen.
  abbrev pub keysend_row : Text → Text → ℕ → HtlcStatus → Text → PaymentRow
  keysend_row preimage payment_hash amt_msat status id = record {
    node_id = id;
    payment_hash = payment_hash;
    status = status_text status;
    origin = origin_text spontaneous_outgoing;
    amt_msat = some amt_msat;
    fee_paid_msat = none;
    preimage = some preimage;
    secret = none;
    label = none;
    invoice = none;
  }

  insert_keysend : Text → Text → ℕ → HtlcStatus → Payments (Unit {0})
  insert_keysend preimage payment_hash amt_msat status = do
    amt ← lift (to_i64 amt_msat)
    insert_payment t (some node_id) (keysend_row preimage payment_hash amt status)

  -- Nothing is stored where there is no payee or no route.
  unfoldable pub keysend : Answer → Text → Text → ℕ → Payments (Unit {0})
  unfolding insert_keysend
  keysend initiated preimage payment_hash amt_msat =
      insert_keysend preimage payment_hash amt_msat pending
  keysend bad_invoice preimage payment_hash amt_msat = pure tt
  keysend unroutable preimage payment_hash amt_msat = pure tt
  keysend unsent preimage payment_hash amt_msat =
      insert_keysend preimage payment_hash amt_msat failed

  abbrev pub invoice_row :
      HtlcStatus → PaymentOrigin → Option Text → Invoice → Option ℕ → Text → PaymentRow
  invoice_row status origin label invoice amt_msat id = record {
    node_id = id;
    payment_hash = invoice.payment_hash;
    status = status_text status;
    origin = origin_text origin;
    amt_msat = amt_msat;
    fee_paid_msat = none;
    preimage = none;
    secret = some invoice.payment_secret;
    label = label;
    invoice = some invoice.text;
  }

  -- `.map(|amt| amt.try_into().unwrap())`
  abbrev optional_i64 : {E : Type 0} → Option ℕ → Outcome E (Option ℕ)
  optional_i64 none = ok none
  optional_i64 (some amt) = if ltb amt (2 ^ 63) then ok (some amt) else panic

  insert_sent : HtlcStatus → Invoice → Payments (Unit {0})
  insert_sent status invoice = do
    amt ← lift (optional_i64 invoice.amount_milli_satoshis)
    insert_payment t (some node_id) (invoice_row status invoice_outgoing none invoice amt)

  -- After a payment was initiated the amount is unwrapped for the log.
  unfoldable pub send_payment : Answer → Invoice → Payments (Unit {0})
  unfolding insert_sent
  send_payment initiated invoice = do
    _ ← lift (elim invoice.amount_milli_satoshis [ none ↦ panic | some amt ↦ ok amt ])
    insert_sent pending invoice
  send_payment bad_invoice invoice = lift (err invalid_invoice)
  send_payment unroutable invoice = lift (err no_route)
  send_payment unsent invoice = insert_sent failed invoice

  -- `created` is what `create_invoice_from_channelmanager` returns.
  unfoldable pub get_invoice : Outcome PaymentError Invoice → ℕ → Text → Payments Invoice
  get_invoice created amt_msat description = do
    invoice ← lift created
    amt ← lift (to_i64 amt_msat)
    unwrapped (
        insert_payment t (some node_id)
          (invoice_row pending invoice_incoming (some description) invoice (some amt)))
    pure invoice
