-- ===== src/Listings/Tests.antt =====
-- The listing of payments, with rows in the order they stand in.
use sensei.Prelude.{
  ◌*◌, ◌≡◌, refl, Bool, true, none, some, [], ◌∷◌, ok, Text, length, take, drop, select, arith,
}
use sensei.Text.{codes}
use sensei.Paging.{paginate}
use sensei.Paging.Pages.{read_pages, request_at}
use sensei.Payments.{PaymentRow}
use sensei.Listings.{Paginator, IsPaginator, PaymentsFilter, matches_payment, list_payments}
use sensei.Listings.Whole.{list_payments-pages}

abbrev paginator : Paginator PaymentRow
paginator = record {
  fetch_page =
      λ p page_size page rows. ok (take page_size (drop (page * page_size) (select p rows)));
  num_items = λ p page_size rows. ok (length (select p rows));
}

paginator-IsPaginator : IsPaginator (λ rows. rows) paginator
paginator-IsPaginator = record {
  fetch_page_lem = λ p page_size page rows pos. refl;
  num_items_lem = λ p page_size rows pos. refl;
}

abbrev everything : PaymentsFilter
everything = record { origin = none; status = none }

abbrev row : PaymentRow
row = record {
  node_id = codes "node";
  payment_hash = codes "beef";
  status = codes "pending";
  origin = codes "invoice_incoming";
  amt_msat = some 1000;
  fee_paid_msat = none;
  preimage = none;
  secret = none;
  label = none;
  invoice = none;
}

abbrev any_like : Text → Text → Bool
any_like query s = true

list_payments-pages_example :
    (list_payments any_like paginator (codes "node") (request_at 10 none 0) everything (row ∷ [])
      ≡ paginate
          (select (matches_payment any_like (codes "node") everything []) (row ∷ []))
          (request_at 10 none 0))
    × (read_pages
          (λ k.
            list_payments any_like paginator
              (codes "node")
              (request_at 10 none k)
              everything
              (row ∷ []))
          1
        ≡ ok (
            take
              (1 * 10)
              (select (matches_payment any_like (codes "node") everything []) (row ∷ []))))
list_payments-pages_example =
    list_payments-pages (λ rows. rows) paginator any_like (codes "node") everything none (row ∷ [])
      10 0 1 paginator-IsPaginator (omega arith) (omega arith) (omega arith) (omega arith)
      (ground arith)
