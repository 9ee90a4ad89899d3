-- ===== src/Payments/Lookup.antt =====
-- What is found of a node's payments after a row was put in the place of another.
use sensei.Prelude.{
  ◌≡◌, refl, true, false, some, List, Text, ◌=text◌, =text_iff, =text_swap, ok, find, arith,
  if◌then◌else◌,
}
use sensei.Sql.{Table, IsTable}
use sensei.Sql.Laws.{put, find_sound, update_key}
use sensei.Sql.Unique.{IsKey}
use sensei.Sql.Keyed.{find-put_key}
use sensei.Payments.{PaymentRow, same_payment, by_hash, update_payment, find_payment}

pub same_payment-IsKey : IsKey same_payment
same_payment-IsKey = record {
  symmetric = λ a b.
      ground (arith, =text_swap a.node_id b.node_id, =text_swap a.payment_hash b.payment_hash);
  joins = λ a b c e f. ground (
    arith,
    =text_iff b.node_id a.node_id,
    =text_iff c.node_id a.node_id,
    =text_iff b.node_id c.node_id,
    =text_iff b.payment_hash a.payment_hash,
    =text_iff c.payment_hash a.payment_hash,
    =text_iff b.payment_hash c.payment_hash,
    e,
    f,
  );
}

-- A row that is found has the key it was looked up by.
pub by_hash_sound :
    (node_id hash : Text) (rows : List PaymentRow) (r : PaymentRow)
    → find (by_hash node_id hash) rows ≡ some r
    → (r.node_id ≡ node_id) × (r.payment_hash ≡ hash)
by_hash_sound node_id hash rows r e =
    let hit = find_sound (by_hash node_id hash) rows r e in
    (
      ground (arith, hit, =text_iff r.node_id node_id),
      ground (arith, hit, =text_iff r.payment_hash hash),
    )

-- Two hashes that differ name no row in common.
by_hash_apart :
    (node_id h k : Text) (r : PaymentRow)
    → (h =text k) ≡ false
    → by_hash node_id h r ≡ true
    → by_hash node_id k r ≡ false
by_hash_apart node_id h k r e hit =
    ground (arith, =text_iff h k, =text_iff r.payment_hash h, =text_iff r.payment_hash k)

module _ (t : Table PaymentRow) (law : IsTable same_payment true t) where
  pub find_payment_lem :
      (node_id hash : Text) (rows : List PaymentRow)
      → find_payment t node_id hash rows ≡ (ok (find (by_hash node_id hash) rows), rows)
  unfolding find_payment
  find_payment_lem node_id hash rows = rw (law.one_lem (by_hash node_id hash) rows) refl

  -- A row with the key of one that is there takes its place.
  pub update_payment-find :
      (node_id hash : Text) (row : PaymentRow) (rows : List PaymentRow) (old : PaymentRow)
      → find (by_hash node_id hash) rows ≡ some old
      → row.node_id ≡ node_id
      → row.payment_hash ≡ hash
      → (update_payment t row rows ≡ (ok tt, put (by_hash node_id hash) row rows))
  unfolding update_payment
  update_payment-find node_id hash row rows old e p q =
      let key : same_payment row ≡ by_hash node_id hash = λ i. by_hash (p i) (q i) in
      rw (update_key same_payment true t (by_hash node_id hash) old row rows law e key) refl

pub find-put_payment :
    (node_id h k : Text) (row : PaymentRow) (rows : List PaymentRow) (old : PaymentRow)
    → find (by_hash node_id h) rows ≡ some old
    → row.node_id ≡ node_id
    → row.payment_hash ≡ h
    → find (by_hash node_id k) (put (by_hash node_id h) row rows)
      ≡ (if h =text k then some row else find (by_hash node_id k) rows)
find-put_payment node_id h k row rows old e p q =
    let own : by_hash node_id h row ≡ true =
      ground (arith, =text_iff row.node_id node_id, =text_iff row.payment_hash h, p, q) in
    find-put_key (by_hash node_id) (by_hash_apart node_id) h k row old rows e own
