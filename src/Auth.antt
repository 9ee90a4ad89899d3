-- ===== src/Auth.antt =====
-- Access tokens: entity/src/access_token.rs, the token queries of senseicore/src/database.rs, and the
-- two places that check a token, src/http/admin.rs and src/grpc/admin.rs.
mod Tests
pub mod Create
pub mod Scopes
pub mod Tokens
use sensei.Prelude.{
  ℕ, Bool, true, false, not, ◌&&◌, ◌||◌, Option, none, some, List, [], ◌∷◌, ◌++◌, Text, ◌=text◌,
  ◌==◌, ltb, any, Outcome, ok, err, panic, if◌then◌else◌,
}
use Prim.Native.String.{String}
use sensei.Text.{codes}
use sensei.Sql.{Table, DbErr}
use sensei.Paging.{PaginationRequest}

-- The columns of an access token that the program reads.
pub record AccessToken : Type 0 where
  pub id : Text
  pub token : Text
  pub name : Text
  pub scope : Text
  pub single_use : Bool
  pub expires_at : ℕ

-- `str::split(',')`: the parts between the commas, at least one.
unfoldable pub split : List ℕ → Text → List Text
split part [] = part ∷ []
split part (c ∷ cs) =
    let here = split [] cs in
    let on = split (part ++ c ∷ []) cs in if c == 44 then part ∷ here else on

-- `now` is what `seconds_since_epoch` returns.
unfoldable pub is_expired : ℕ → AccessToken → Bool
is_expired now t = not (t.expires_at == 0) && ltb t.expires_at now

unfoldable pub has_access_to_scope : AccessToken → Option Text → Bool
has_access_to_scope t none = true
has_access_to_scope t (some scope) =
    any (λ s. s =text codes "*") (split [] t.scope) || any (λ s. s =text scope) (split [] t.scope)

unfoldable pub is_valid : ℕ → AccessToken → Option Text → Bool
is_valid now t scope = not (is_expired now t) && has_access_to_scope t scope

module _ (table : Table AccessToken) where
  unfoldable pub get_access_token_by_token :
      Text → List AccessToken → Outcome DbErr (Option AccessToken)
  get_access_token_by_token token rows = table.one (λ r. r.token =text token) rows

  unfoldable pub delete_access_token : Text → List AccessToken → Outcome DbErr (List AccessToken)
  delete_access_token id rows = table.delete_many (λ r. r.id =text id) rows

-- What is deleted on use: a single-use token. `.unwrap()` on the deletion.
unfoldable pub use_up :
    {E : Type 0}
    → Table AccessToken
    → AccessToken
    → List AccessToken
    → Outcome E Bool × List AccessToken
use_up table t rows =
    if t.single_use
    then elim (delete_access_token table t.id rows) [
      | ok rows' ↦ (ok true, rows')
      | err e ↦ (panic, rows)
      | panic ↦ (panic, rows)
    ]
    else (ok true, rows)

-- The one status that the check of a token over HTTP answers with.
pub data StatusCode : Type 0 where
  unauthorized : StatusCode

-- The header's value, which may be no text, before the cookie.
unfoldable pub get_token_from_cookies_or_header :
    Option Text → Option (Option Text) → Outcome StatusCode Text
get_token_from_cookies_or_header cookie (some (some token)) = ok token
get_token_from_cookies_or_header cookie (some none) = err unauthorized
get_token_from_cookies_or_header (some token) none = ok token
get_token_from_cookies_or_header none none = err unauthorized

module _ (table : Table AccessToken) (now : ℕ) where
  unfoldable pub authenticate_request :
      Text
      → Option Text
      → Option (Option Text)
      → List AccessToken
      → Outcome StatusCode Bool × List AccessToken
  authenticate_request scope cookie header rows =
      elim (get_token_from_cookies_or_header cookie header) [
        | err e ↦ (err e, rows)
        | panic ↦ (panic, rows)
        | ok token ↦ elim (get_access_token_by_token table token rows) [
          | err e ↦ (err unauthorized, rows)
          | panic ↦ (panic, rows)
          | ok none ↦ (ok false, rows)
          | ok (some t) ↦
              if is_valid now t (some scope) then use_up table t rows else (ok false, rows)
        ]
      ]

  -- The check over gRPC.
  unfoldable pub is_valid_token :
      Text → Option Text → List AccessToken → Outcome StatusCode Bool × List AccessToken
  is_valid_token token scope rows = elim (get_access_token_by_token table token rows) [
    | err e ↦ (ok false, rows)
    | panic ↦ (panic, rows)
    | ok none ↦ (ok false, rows)
    | ok (some t) ↦ if is_valid now t scope then use_up table t rows else (ok false, rows)
  ]

-- `AdminRequest` of senseicore/src/services/admin.rs.
pub record NodeCreateInfo : Type 0 where
  pub username : Text
  pub alias : Text
  pub passphrase : Text
  pub start : Bool

pub data AdminRequest : Type 0 where
  get_status : Text → AdminRequest
  create_admin : NodeCreateInfo → AdminRequest
  start_admin : Text → AdminRequest
  create_node : NodeCreateInfo → AdminRequest
  batch_create_node : List NodeCreateInfo → AdminRequest
  list_nodes : PaginationRequest → AdminRequest
  delete_node : Text → AdminRequest
  start_node : Text → Text → AdminRequest
  stop_node : Text → AdminRequest
  create_token : Text → ℕ → Text → Bool → AdminRequest
  list_tokens : PaginationRequest → AdminRequest
  delete_token : Text → AdminRequest

unfoldable pub get_scope_from_request : AdminRequest → Option Text
get_scope_from_request (create_node _) = some (codes "nodes/create")
get_scope_from_request (list_nodes _) = some (codes "nodes/list")
get_scope_from_request (delete_node _) = some (codes "nodes/delete")
get_scope_from_request (stop_node _) = some (codes "nodes/stop")
get_scope_from_request (list_tokens _) = some (codes "tokens/list")
get_scope_from_request (create_token _ _ _ _) = some (codes "tokens/create")
get_scope_from_request (delete_token _) = some (codes "tokens/delete")
get_scope_from_request _ = none
