-- ===== src/Listings.antt =====
-- The listings of senseicore/src/database.rs, which the database cuts into pages.
mod Tests
pub mod Whole
use sensei.Prelude.{
  ℕ, ◌+◌, ◌*◌, ◌<◌, ◌≡◌, Bool, true, false, ◌&&◌, ◌||◌, Option, none, some, List, [], Text, ◌=text◌,
  Outcome, ok, ◌>>=◌, ltb, length, take, drop, select, unwrap_or,
}
use sensei.Sql.{DbErr}
use sensei.Paging.{PaginationRequest, PaginationResponse, usize}
use sensei.Admin.{NodeRow}
use sensei.Auth.{AccessToken}
use sensei.Payments.{PaymentRow}
use sensei.Peers.{PeerRow}

-- What sea-orm's `paginate` gives on a query with a filter and an order, over the rows of a table.
pub record Paginator (Row : Type 0) : Type 0 where
  pub fetch_page : (Row → Bool) → (page_size page : ℕ) → List Row → Outcome DbErr (List Row)
  pub num_items : (Row → Bool) → (page_size : ℕ) → List Row → Outcome DbErr ℕ

-- A page is its stretch of the rows that pass the filter, in the order of the query. Nothing is said
-- of a page size of 0.
pub record IsPaginator {Row : Type 0} (order : List Row → List Row) (q : Paginator Row)
    : Type 0 where
  pub fetch_page_lem :
      (p : Row → Bool) (page_size page : ℕ) (rows : List Row)
      → 0 < page_size
      → q.fetch_page p page_size page rows
        ≡ ok (take page_size (drop (page * page_size) (select p (order rows))))
  pub num_items_lem :
      (p : Row → Bool) (page_size : ℕ) (rows : List Row)
      → 0 < page_size
      → q.num_items p page_size rows ≡ ok (length (select p (order rows)))

-- What the listings share: a page, the number of rows, and whether some are left.
unfoldable pub list_page :
    {Row : Type 0}
    → Paginator Row
    → (Row → Bool)
    → PaginationRequest
    → List Row
    → Outcome DbErr (List Row × PaginationResponse)
list_page q filter pagination rows = do
  found ← q.fetch_page filter pagination.take pagination.page rows
  total ← q.num_items filter pagination.take rows
  let response : PaginationResponse = record {
    has_more = ltb (usize (usize (pagination.page + 1) * pagination.take)) total;
    total = total;
  }
  ok (found, response)

pub record PaymentsFilter : Type 0 where
  pub origin : Option Text
  pub status : Option Text

-- `like q s` is what the database says of `s LIKE '%q%'`. It says nothing of NULL.
module _ (like : Text → Text → Bool) where
  abbrev pub like_optional : Text → Option Text → Bool
  like_optional query none = false
  like_optional query (some s) = like query s

  abbrev pub matches_node : Text → NodeRow → Bool
  matches_node query r = like query r.alias || (like query r.pubkey || like query r.username)

  unfoldable pub list_nodes :
      Paginator NodeRow
      → PaginationRequest
      → List NodeRow
      → Outcome DbErr (List NodeRow × PaginationResponse)
  list_nodes q pagination = list_page q (matches_node (unwrap_or [] pagination.query)) pagination

  abbrev pub matches_token : Text → AccessToken → Bool
  matches_token query r = like query r.token || like query r.name

  unfoldable pub list_access_tokens :
      Paginator AccessToken
      → PaginationRequest
      → List AccessToken
      → Outcome DbErr (List AccessToken × PaginationResponse)
  list_access_tokens q pagination =
      list_page q (matches_token (unwrap_or [] pagination.query)) pagination

  abbrev pub matches_payment : Text → PaymentsFilter → Text → PaymentRow → Bool
  matches_payment node_id filter query r =
      (r.node_id =text node_id)
      && (like (unwrap_or [] filter.origin) r.origin
          && (like (unwrap_or [] filter.status) r.status
              && (like query r.payment_hash
                  || (like_optional query r.label || like_optional query r.invoice))))

  unfoldable pub list_payments :
      Paginator PaymentRow
      → Text
      → PaginationRequest
      → PaymentsFilter
      → List PaymentRow
      → Outcome DbErr (List PaymentRow × PaginationResponse)
  list_payments q node_id pagination filter =
      list_page q (matches_payment node_id filter (unwrap_or [] pagination.query)) pagination

  abbrev pub matches_peer : Text → Text → PeerRow → Bool
  matches_peer node_id query r =
      (r.node_id =text node_id) && (like query r.pubkey || like_optional query r.label)

  unfoldable pub list_peers :
      Paginator PeerRow
      → Text
      → PaginationRequest
      → List PeerRow
      → Outcome DbErr (List PeerRow × PaginationResponse)
  list_peers q node_id pagination =
      list_page q (matches_peer node_id (unwrap_or [] pagination.query)) pagination
