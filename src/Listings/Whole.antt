-- ===== src/Listings/Whole.antt =====
-- The pages of a listing are those of `PagedVec`, so that together they are the whole.
use sensei.Prelude.{
  ℕ, zero, suc, [], ◌+◌, ◌*◌, ◌^◌, ◌<◌, ◌≤◌, ◌≡◌, refl, ap, ◌∙◌, Bool, Option, List, Text, Outcome,
  ok, length, take, select, unwrap_or, arith,
}
use sensei.Sql.{DbErr}
use sensei.Paging.{PaginationRequest, PaginationResponse, paginate, usize}
use sensei.Paging.Pages.{
  paginate_lem, pages_joined, index_bound, next_index, read_pages, request_at,
}
use sensei.Payments.{PaymentRow}
use sensei.Listings.{
  Paginator, IsPaginator, list_page, PaymentsFilter, matches_payment, list_payments,
}

module _ {Row : Type 0} (order : List Row → List Row) (q : Paginator Row)
    (law : IsPaginator order q) where
  list_page-paginate :
      (filter : Row → Bool) (pagination : PaginationRequest) (rows : List Row)
      → 0 < pagination.take
      → pagination.take < 2 ^ 32
      → pagination.page < 2 ^ 32
      → length (select filter (order rows)) < 2 ^ 63
      → list_page q filter pagination rows
        ≡ paginate {E = DbErr} (select filter (order rows)) pagination
  unfolding list_page
  list_page-paginate filter pagination rows pos small pages fits =
      let found = law.fetch_page_lem filter pagination.take pagination.page rows pos in
      let total = law.num_items_lem filter pagination.take rows pos in
      let whole =
        paginate_lem {E = DbErr} (select filter (order rows)) pagination pos small pages fits in
      let bound = index_bound pagination.page pagination.take pages small in
      let one_more : usize (pagination.page + 1) ≡ suc pagination.page = omega arith in
      let next : usize (usize (pagination.page + 1) * pagination.take)
          ≡ suc pagination.page * pagination.take =
        ap (λ n. usize (n * pagination.take)) one_more
        ∙ inside (suc pagination.page * pagination.take)
            (omega (arith, next_index pagination.page pagination.take, bound)) in
      ground (arith, found, total, whole, next)
    where
      inside : (n : ℕ) → n < 2 ^ 64 → usize n ≡ n
      inside n small = omega arith

-- Reading some pages asks for no other.
read_pages_cong :
    {A E : Type 0} (f g : ℕ → Outcome E (List A × PaginationResponse)) (n : ℕ)
    → ((p : ℕ) → p < n → f p ≡ g p)
    → read_pages f n ≡ read_pages g n
unfolding read_pages
read_pages_cong f g zero same = refl
read_pages_cong f g (suc n) same =
    let before = read_pages_cong f g n (λ p h. same p (omega arith)) in
    let last = same n (omega arith) in rw (before, last) refl

-- For a page length that is not 0, both of 32 bits, and as many payments as fit in memory: a page of
-- `list_payments` is that of `PagedVec` over the node's payments that match, and the first `n` pages, up
-- to 2^32 of them, are together the first `n` times the page length of those.
pub list_payments-pages :
    (order : List PaymentRow → List PaymentRow) (q : Paginator PaymentRow)
    (like : Text → Text → Bool) (node_id : Text) (filter : PaymentsFilter) (query : Option Text)
    (rows : List PaymentRow) (per p n : ℕ)
    → IsPaginator order q
    → 0 < per
    → per < 2 ^ 32
    → p < n
    → n ≤ 2 ^ 32
    → length (select (matches_payment like node_id filter (unwrap_or [] query)) (order rows))
      < 2 ^ 63
    → let matching =
        select (matches_payment like node_id filter (unwrap_or [] query)) (order rows) in
      (list_payments like q node_id (request_at per query p) filter rows
        ≡ paginate matching (request_at per query p))
      × (read_pages (λ k. list_payments like q node_id (request_at per query k) filter rows) n
          ≡ ok (take (n * per) matching))
unfolding list_payments
list_payments-pages order q like node_id filter query rows per p n law pos small asked many fits =
    let matching = select (matches_payment like node_id filter (unwrap_or [] query)) (order rows) in
    let each = λ (k : ℕ) (h : k < n).
      list_page-paginate order q law (matches_payment like node_id filter (unwrap_or [] query))
        (request_at per query k) rows pos small (omega arith) fits in
    (
      each p asked,
      read_pages_cong (λ k. list_payments like q node_id (request_at per query k) filter rows)
            (λ k. paginate matching (request_at per query k)) n each
          ∙ pages_joined matching per query n pos small many fits,
    )
