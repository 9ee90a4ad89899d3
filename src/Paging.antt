-- ===== src/Paging.antt =====
-- Pages of a list: `PagedVec` of senseicore/src/utils.rs and the two listings of senseicore/src/node.rs
-- that are cut into pages.
mod Tests
pub mod Pages
use sensei.Prelude.{
  ℕ, zero, suc, ◌+◌, ◌-◌, ◌*◌, ◌%◌, ◌^◌, min, Bool, true, false, ◌&&◌, ◌||◌, Option, none, some,
  List, [], ◌∷◌, Text, Outcome, ok, panic, ◌>>=◌, ltb, leb, ◌==◌, take, drop, length, select,
  unwrap_or, is_empty, if◌then◌else◌,
}
use mathlib.Core.Option
use sensei.Wallet.Types.{TransactionDetails}

abbrev is_some : {A : Type 0} → Option A → Bool
is_some none = false
is_some (some a) = true

-- `usize` arithmetic, in a release build.
abbrev pub usize : ℕ → ℕ
usize n = n % 2 ^ 64

-- `%`, which panics on a divisor of 0.
abbrev pub checked_rem : {E : Type 0} → ℕ → ℕ → Outcome E ℕ
checked_rem a zero = panic
checked_rem a (suc b) = ok (a % suc b)

-- `slice.get(start..end)`
abbrev get_range : {A : Type 0} → List A → ℕ → ℕ → Option (List A)
get_range xs start end =
    if leb start end && leb end (length xs) then some (take (end - start) (drop start xs)) else none

module _ {A : Type 0} {E : Type 0} where
  -- `PagedVec::page`
  unfoldable pub page : List A → ℕ → ℕ → Outcome E (Option (ℕ × List A))
  page xs page_length index =
      if ltb index (length xs)
      then (do
        page_index ← checked_rem index page_length
        let start = index - page_index
        let end = min (length xs) (usize (start + page_length))
        ok (Option.map (λ s. (page_index, s)) (get_range xs start end)))
      else ok none

-- `PaginationRequest`, with its two `u32` numbers, and `PaginationResponse`.
pub record PaginationRequest : Type 0 where
  pub page : ℕ
  pub take : ℕ
  pub query : Option Text

pub record PaginationResponse : Type 0 where
  pub has_more : Bool
  pub total : ℕ

-- What both listings do with what their query leaves.
unfoldable pub paginate :
    {A E : Type 0} → List A → PaginationRequest → Outcome E (List A × PaginationResponse)
paginate xs pagination = do
  let per_page = pagination.take
  let index = usize (pagination.page * per_page)
  current ← page xs per_page index
  next ← page xs per_page (usize (index + per_page))
  let response : PaginationResponse = record { has_more = is_some next; total = length xs }
  ok (elim current [ none ↦ [] | some (i, s) ↦ s ], response)

-- `str::contains`
pub starts_with : Text → Text → Bool
starts_with [] s = true
starts_with (p ∷ ps) [] = false
starts_with (p ∷ ps) (c ∷ cs) = (p == c) && starts_with ps cs

pub contains : Text → Text → Bool
contains query [] = is_empty query
contains query (c ∷ cs) = starts_with query (c ∷ cs) || contains query cs

-- `Channel` of senseicore/src/services/node.rs, with `alias` as the node's network graph gives it.
pub record Channel : Type 0 where
  pub channel_id : Text
  pub funding_txid : Option Text
  pub funding_tx_index : Option ℕ
  pub short_channel_id : Option ℕ
  pub channel_value_satoshis : ℕ
  pub balance_msat : ℕ
  pub unspendable_punishment_reserve : Option ℕ
  pub user_channel_id : ℕ
  pub outbound_capacity_msat : ℕ
  pub inbound_capacity_msat : ℕ
  pub confirmations_required : Option ℕ
  pub force_close_spend_delay : Option ℕ
  pub is_outbound : Bool
  pub is_channel_ready : Bool
  pub is_usable : Bool
  pub is_public : Bool
  pub counterparty_pubkey : Text
  pub alias : Option Text

abbrev matches_optional : Text → Option Text → Bool
matches_optional query none = false
matches_optional query (some s) = contains query s

unfoldable pub matches_channel : Text → Channel → Bool
matches_channel query channel =
    contains query channel.channel_id
    || (matches_optional query channel.funding_txid
        || (contains query channel.counterparty_pubkey || matches_optional query channel.alias))

-- `channels` are those that the channel manager lists, as `Channel`s.
unfoldable pub list_channels :
    {E : Type 0} → List Channel → PaginationRequest → Outcome E (List Channel × PaginationResponse)
list_channels channels pagination =
    let query = unwrap_or [] pagination.query in
    paginate (select (λ c. matches_channel query c) channels) pagination

-- `transactions` are those that the wallet lists; a txid is shown as hexadecimal text.
unfoldable pub list_transactions :
    {E : Type 0} (show : Text → Text)
    → List TransactionDetails
    → PaginationRequest
    → Outcome E (List TransactionDetails × PaginationResponse)
list_transactions show transactions pagination =
    let query = unwrap_or [] pagination.query in
    paginate (select (λ t. contains query (show t.txid)) transactions) pagination
