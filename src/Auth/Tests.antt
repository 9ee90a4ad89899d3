-- ===== src/Auth/Tests.antt =====
-- A single-use token and the root token in a table in memory.
use sensei.Prelude.{
  ◌≡◌, refl, true, false, ◌||◌, none, some, List, [], ◌∷◌, ◌=text◌, any, ok, err, panic, ℕ, Option,
  Text, ◌&&◌, if◌then◌else◌,
}
use sensei.Text.{codes}
use sensei.Sql.{Table, list_table}
use sensei.Sql.Laws.{list_table-IsTable}
use sensei.Auth.{
  AccessToken, has_access_to_scope, is_valid, is_expired, is_valid_token, authenticate_request,
  get_token_from_cookies_or_header, split,
}
use sensei.Hex.{hex_str}
use sensei.Auth.Create.{allowed, create_access_token, is_valid_token-create_access_token}
use sensei.Auth.Scopes.{has_access_to_scope-join, join}
use sensei.Auth.Tokens.{same_id, is_valid_token-once, authenticate_request-is_valid_token}

abbrev table : Table AccessToken
table = list_table same_id true

abbrev ticket : AccessToken
ticket = record {
  id = codes "1";
  token = codes "t";
  name = codes "ticket";
  scope = codes "nodes/list,nodes/stop";
  single_use = true;
  expires_at = 50;
}

abbrev root : AccessToken
root = record {
  id = codes "2";
  token = codes "r";
  name = codes "root";
  scope = codes "*";
  single_use = false;
  expires_at = 0;
}

abbrev tokens : List AccessToken
tokens = root ∷ ticket ∷ []

has_access_to_scope-join_example :
    has_access_to_scope ticket (some (codes "nodes/stop"))
    ≡ any
        (λ s. (s =text codes "*") || (s =text codes "nodes/stop"))
        (codes "nodes/list" ∷ codes "nodes/stop" ∷ [])
has_access_to_scope-join_example =
    has_access_to_scope-join ticket (codes "nodes/list") (codes "nodes/stop" ∷ [])
      (codes "nodes/stop")
      (
        (refl, (refl, (refl, (refl, (refl, (refl, (refl, (refl, (refl, (refl, tt)))))))))),
        ((refl, (refl, (refl, (refl, (refl, (refl, (refl, (refl, (refl, (refl, tt)))))))))), tt),
      )
      (unfold join in refl)

is_valid_token-once_example :
    let (r, rows) = is_valid_token table 40 (codes "t") (some (codes "nodes/list")) tokens in
    (r ≡ ok true) × (is_valid_token table 41 (codes "t") none rows ≡ (ok false, rows))
unfolding ◌=text◌ split
is_valid_token-once_example =
    is_valid_token-once table (list_table-IsTable same_id true) 40 41 (codes "t") ticket
      (some (codes "nodes/list")) none tokens ((refl, tt), (tt, tt)) refl refl
      (unfold is_valid is_expired has_access_to_scope in refl)

authenticate_request-is_valid_token_example :
    authenticate_request table 40 (codes "nodes/list") (some (codes "r")) none tokens
    ≡ elim (get_token_from_cookies_or_header (some (codes "r")) none) [
      | ok token ↦ is_valid_token table 40 token (some (codes "nodes/list")) tokens
      | err e ↦ (err e, tokens)
      | panic ↦ (panic, tokens)
    ]
authenticate_request-is_valid_token_example =
    authenticate_request-is_valid_token table (list_table-IsTable same_id true) 40
      (codes "nodes/list") (some (codes "r")) none tokens

is_valid_token-create_access_token_example :
    let (r, rows) =
      create_access_token table
        (255 ∷ 0 ∷ [])
        (codes "3")
        (codes "guest")
        (join (codes "a" ∷ codes "b" ∷ []))
        50
        true
        tokens in
    (r
      ≡ ok (record {
        id = codes "3";
        token = hex_str (255 ∷ 0 ∷ []);
        name = codes "guest";
        scope = join (codes "a" ∷ codes "b" ∷ []);
        single_use = true;
        expires_at = 50;
      }))
    × ((now : ℕ) (asked : Option Text)
        → is_valid_token table now (hex_str (255 ∷ 0 ∷ [])) asked rows ≡ (
          ok (allowed 50 now (codes "a" ∷ codes "b" ∷ []) asked),
          if true && allowed 50 now (codes "a" ∷ codes "b" ∷ []) asked then tokens else rows,
        ))
unfolding ◌=text◌ hex_str
is_valid_token-create_access_token_example =
    is_valid_token-create_access_token table (list_table-IsTable same_id true) (255 ∷ 0 ∷ [])
      (codes "3") (codes "guest") (codes "a") (codes "b" ∷ []) 50 true tokens refl refl
      ((refl, tt), ((refl, tt), tt))
