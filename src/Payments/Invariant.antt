-- ===== src/Payments/Invariant.antt =====
-- What the table of a node's payments is like between two writes, and that each write keeps it.
use sensei.Prelude.{
  ℕ, ◌≡◌, ◌≢◌, refl, sym, subst, ◌∙◌, true, not, none, some, List, [], ◌∷◌, ◌++◌, Text, =text_iff,
  ok, err, panic, find, any, select, All, arith, Bool-cases, Option-cases, inl, inr, Outcome, ltb,
  ◌^◌,
}
use sensei.Text.{codes}
use sensei.Sql.{Table, IsTable, db_err}
use sensei.Sql.Laws.{put, All-snoc, find-All, select-All}
use sensei.Sql.Unique.{
  HasUniqueKeys, snoc-HasUniqueKeys, put-HasUniqueKeys, put-holds, select-HasUniqueKeys,
}
use sensei.Payments.{
  PaymentRow, PaymentError, HtlcStatus, pending, succeeded, failed, unknown, status_text,
  same_payment, by_hash, insert_payment, delete_payment, label_payment, Answer, initiated,
  bad_invoice, unroutable, unsent, Invoice, insert_keysend, keysend_row, insert_sent, invoice_row,
  invoice_outgoing, invoice_incoming, keysend, send_payment, get_invoice,
}
use sensei.Payments.Lookup.{
  same_payment-IsKey, find_payment_lem, update_payment-find, by_hash_sound,
}

-- A payment that succeeded has its preimage.
abbrev pub HasProof : PaymentRow → Type 0
HasProof r = r.status ≡ status_text succeeded → (p : Text) × (r.preimage ≡ some p)

abbrev pub IsSound : Text → PaymentRow → Type 0
IsSound node_id r = (r.node_id ≡ node_id) × HasProof r

pub record AreSound (node_id : Text) (rows : List PaymentRow) : Type 0 where
  pub unique : HasUniqueKeys same_payment rows
  pub sound : All (IsSound node_id) rows

pub unfinished : (s : HtlcStatus) → s ≢ succeeded → status_text s ≢ status_text succeeded
unfinished pending n e = absurd (ground (arith, =text_iff (codes "pending") (codes "succeeded"), e))
unfinished failed n e = absurd (ground (arith, =text_iff (codes "failed") (codes "succeeded"), e))
unfinished unknown n e = absurd (ground (arith, =text_iff (codes "unknown") (codes "succeeded"), e))
unfinished succeeded n e = absurd (n refl)

module _ (t : Table PaymentRow) (law : IsTable same_payment true t) (node_id : Text) where
  pub insert_payment-AreSound :
      (row : Text → PaymentRow) (rows : List PaymentRow)
      → AreSound node_id rows
      → IsSound node_id (row node_id)
      → AreSound node_id (insert_payment t (some node_id) row rows).1
  unfolding insert_payment
  insert_payment-AreSound row rows h p = elim (Bool-cases (any (same_payment (row node_id)) rows)) [
    | inl there ↦
        let run : t.insert (row node_id) rows ≡ err db_err =
          ground (arith, law.insert_lem (row node_id) rows, there) in
        rw run h
    | inr fresh ↦
        let run : t.insert (row node_id) rows ≡ ok (rows ++ row node_id ∷ []) =
          ground (arith, law.insert_lem (row node_id) rows, fresh) in
        rw run (record {
          unique = snoc-HasUniqueKeys same_payment (row node_id) rows h.unique fresh;
          sound = All-snoc (IsSound node_id) rows (row node_id) h.sound p;
        })
  ]

  -- A row that is found, changed outside its key.
  pub put-AreSound :
      (hash : Text) (row old : PaymentRow) (rows : List PaymentRow)
      → AreSound node_id rows
      → find (by_hash node_id hash) rows ≡ some old
      → row.node_id ≡ node_id
      → row.payment_hash ≡ hash
      → HasProof row
      → AreSound node_id (put (by_hash node_id hash) row rows)
  put-AreSound hash row old rows h e p q proof =
      let key : same_payment row ≡ by_hash node_id hash = λ i. by_hash (p i) (q i) in
      record {
        unique =
            subst (λ k. HasUniqueKeys same_payment (put k row rows)) key
              (put-HasUniqueKeys same_payment same_payment-IsKey row rows h.unique);
        sound = put-holds (IsSound node_id) (by_hash node_id hash) row rows (p, proof) h.sound;
      }

  pub label_payment-AreSound :
      (hash label : Text) (rows : List PaymentRow)
      → AreSound node_id rows
      → AreSound node_id (label_payment t node_id hash label rows).1
  unfolding label_payment
  label_payment-AreSound hash label rows h =
      let look = find_payment_lem t law node_id hash rows in
      elim (Option-cases (find (by_hash node_id hash) rows)) [
        | inl e ↦
            let run : label_payment t node_id hash label rows ≡ (ok tt, rows) =
              ground (arith, look, e) in
            rw run h
        | inr (r, e) ↦
            let (same_node, same_hash) = by_hash_sound node_id hash rows r e in
            let row = record r { label = some label } in
            let done = update_payment-find t law node_id hash row rows r e same_node same_hash in
            let run : label_payment t node_id hash label rows
                ≡ (ok tt, put (by_hash node_id hash) row rows) =
              ground (arith, look, e, done) in
            rw run (
              put-AreSound hash row r rows h e same_node same_hash
                (find-All (IsSound node_id) (by_hash node_id hash) rows r h.sound e).1)
      ]

  pub delete_payment-AreSound :
      (hash : Text) (rows : List PaymentRow)
      → AreSound node_id rows
      → AreSound node_id (delete_payment t node_id hash rows).1
  unfolding delete_payment
  delete_payment-AreSound hash rows h =
      let look = find_payment_lem t law node_id hash rows in
      elim (Option-cases (find (by_hash node_id hash) rows)) [
        | inl e ↦
            let run : delete_payment t node_id hash rows ≡ (ok tt, rows) =
              ground (arith, look, e) in
            rw run h
        | inr (r, e) ↦
            let run : delete_payment t node_id hash rows
                ≡ (ok tt, select (λ x. not (same_payment r x)) rows) =
              ground (arith, look, e, law.delete_lem r rows) in
            rw run (record {
              unique =
                  select-HasUniqueKeys same_payment (λ x. not (same_payment r x)) rows h.unique;
              sound = select-All (IsSound node_id) (λ x. not (same_payment r x)) rows h.sound;
            })
      ]

  -- A payment that has only begun, or that could not be sent, needs no preimage.
  begun :
      (status : HtlcStatus) (row : PaymentRow)
      → row.node_id ≡ node_id
      → row.status ≡ status_text status
      → status ≢ succeeded
      → IsSound node_id row
  begun status row p e n = (p, λ done. absurd (unfinished status n (sym e ∙ done)))

  pub keysend-AreSound :
      (answer : Answer) (preimage hash : Text) (amt_msat : ℕ) (rows : List PaymentRow)
      → AreSound node_id rows
      → AreSound node_id (keysend t node_id answer preimage hash amt_msat rows).1
  unfolding keysend insert_keysend
  keysend-AreSound bad_invoice preimage hash amt_msat rows h = h
  keysend-AreSound unroutable preimage hash amt_msat rows h = h
  keysend-AreSound initiated preimage hash amt_msat rows h =
      elim (Bool-cases (ltb amt_msat (2 ^ 63))) [
        | inl small ↦ rw small (
            insert_payment-AreSound (keysend_row t node_id preimage hash amt_msat pending) rows h (
              begun pending (keysend_row t node_id preimage hash amt_msat pending node_id) refl refl
                (λ e. ground (arith, e))))
        | inr large ↦ rw large h
      ]
  keysend-AreSound unsent preimage hash amt_msat rows h =
      elim (Bool-cases (ltb amt_msat (2 ^ 63))) [
        | inl small ↦ rw small (
            insert_payment-AreSound (keysend_row t node_id preimage hash amt_msat failed) rows h (
              begun failed (keysend_row t node_id preimage hash amt_msat failed node_id) refl refl
                (λ e. ground (arith, e))))
        | inr large ↦ rw large h
      ]

  insert_sent-AreSound :
      (status : HtlcStatus) (invoice : Invoice) (rows : List PaymentRow)
      → status ≢ succeeded
      → AreSound node_id rows
      → AreSound node_id (insert_sent t node_id status invoice rows).1
  unfolding insert_sent
  insert_sent-AreSound status invoice rows n h = elim (Option-cases invoice.amount_milli_satoshis) [
    | inl e ↦ rw e (
        insert_payment-AreSound (invoice_row t node_id status invoice_outgoing none invoice none)
          rows h
          (begun status (invoice_row t node_id status invoice_outgoing none invoice none node_id)
            refl refl n))
    | inr (amt, e) ↦ elim (Bool-cases (ltb amt (2 ^ 63))) [
      | inl small ↦
          rw (e, small)
            (insert_payment-AreSound
              (invoice_row t node_id status invoice_outgoing none invoice (some amt)) rows h
              (begun status
                (invoice_row t node_id status invoice_outgoing none invoice (some amt) node_id) refl
                refl n))
      | inr large ↦ rw (e, large) h
    ]
  ]

  pub send_payment-AreSound :
      (answer : Answer) (invoice : Invoice) (rows : List PaymentRow)
      → AreSound node_id rows
      → AreSound node_id (send_payment t node_id answer invoice rows).1
  unfolding send_payment
  send_payment-AreSound bad_invoice invoice rows h = h
  send_payment-AreSound unroutable invoice rows h = h
  send_payment-AreSound unsent invoice rows h =
      insert_sent-AreSound failed invoice rows (λ e. ground (arith, e)) h
  send_payment-AreSound initiated invoice rows h =
      elim (Option-cases invoice.amount_milli_satoshis) [
        | inl e ↦ rw e h
        | inr (amt, e) ↦ rw e (insert_sent-AreSound pending invoice rows (λ e. ground (arith, e)) h)
      ]

  pub get_invoice-AreSound :
      (created : Outcome PaymentError Invoice) (amt_msat : ℕ) (description : Text)
      (rows : List PaymentRow)
      → AreSound node_id rows
      → AreSound node_id (get_invoice t node_id created amt_msat description rows).1
  unfolding get_invoice
  get_invoice-AreSound (err e) amt_msat description rows h = h
  get_invoice-AreSound panic amt_msat description rows h = h
  get_invoice-AreSound (ok invoice) amt_msat description rows h =
      let row =
        invoice_row t node_id pending invoice_incoming (some description) invoice (some amt_msat) in
      elim (Bool-cases (ltb amt_msat (2 ^ 63))) [
        | inl small ↦
            let stored =
              insert_payment-AreSound row rows h
                (begun pending (row node_id) refl refl (λ e. ground (arith, e))) in
            let same : (get_invoice t node_id (ok invoice) amt_msat description rows).1
                ≡ (insert_payment t (some node_id) row rows).1 =
              ground (arith, small) in
            rw same stored
        | inr large ↦ rw large h
      ]
