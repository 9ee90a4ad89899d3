-- ===== src/Admin/Requests.antt =====
-- senseicore/src/services/admin.rs: the requests of `AdminService::call` that make nodes and start them,
-- over the service and the access tokens. `serialized` is the new macaroon's text, `macaroon` the one that
-- `get_macaroon_for_node` returns, `token_bytes` and `uuid` are drawn for the new token.
use sensei.Prelude.{ℕ, Bool, true, false, Option, none, some, List, Text, Outcome, ok, err, panic}
use sensei.State.{Run}
use sensei.Sql.{Table}
use sensei.Auth.{AccessToken}
use sensei.Auth.Create.{get_root_access_token, create_root_access_token}
use sensei.Admin.{
  AdminService, Backend, Generated, NodeRow, root, default, Error, generic, Service, create_node,
  start_node, get_root_node, ◌>>=◌, ◌>>◌, pure, lift,
}

-- The service beside the tokens of its database.
abbrev pub Call {ℓ} : Type 0 → Type ℓ → Type ℓ
Call Handle A = Run (AdminService Handle × List AccessToken) Error A

abbrev pub within : {Handle A : Type 0} → Service Handle A → Call Handle A
within m (s, tokens) = let (r, s') = m s in (r, (s', tokens))

module _ {Handle : Type 0} (b : Backend Handle) (table : Table AccessToken) where
  abbrev pub started : Bool → NodeRow → Text → Call Handle (Unit {0})
  started true node passphrase = within (start_node b node passphrase)
  started false node passphrase = pure tt

  -- `create_root_access_token().await.unwrap()`
  unfoldable pub root_token : List ℕ → Text → Call Handle AccessToken
  root_token token_bytes uuid (s, tokens) =
      let (r, tokens') = create_root_access_token table token_bytes uuid tokens in
      elim r [
        | ok t ↦ (ok t, (s, tokens'))
        | err e ↦ (panic, (s, tokens'))
        | panic ↦ (panic, (s, tokens'))
      ]

  -- The request `CreateAdmin`, with the node and the token of the response.
  unfoldable pub handle_create_admin :
      Text
      → Text
      → Text
      → Bool
      → Outcome Error Generated
      → Outcome Error Text
      → List ℕ
      → Text
      → Call Handle (NodeRow × (Text × Text))
  handle_create_admin username alias passphrase start generated serialized token_bytes uuid = do
    node ← within (create_node b username alias root generated)
    token ← root_token token_bytes uuid
    macaroon ← lift serialized
    started start node passphrase
    pure (node, (macaroon, token.token))

  -- The request `CreateNode`.
  unfoldable pub handle_create_node :
      Text
      → Text
      → Text
      → Bool
      → Outcome Error Generated
      → Outcome Error Text
      → Call Handle (NodeRow × Text)
  handle_create_node username alias passphrase start generated serialized = do
    node ← within (create_node b username alias default generated)
    macaroon ← lift serialized
    started start node passphrase
    pure (node, macaroon)

  abbrev pub find_root_token : Call Handle (Option AccessToken)
  find_root_token (s, tokens) = elim (get_root_access_token table tokens) [
    | ok t ↦ (ok t, (s, tokens))
    | err e ↦ (err generic, (s, tokens))
    | panic ↦ (panic, (s, tokens))
  ]

  -- The token is asked for after the node has been started: `expect("no token in db")`.
  abbrev pub expected : Option AccessToken → Outcome Error Text
  expected (some t) = ok t.token
  expected none = panic

  -- The request `StartAdmin`.
  unfoldable pub handle_start_admin :
      Text → Outcome Error Text → Outcome Error Text → Call Handle (NodeRow × (Text × Text))
  unfolding get_root_node
  handle_start_admin passphrase macaroon serialized = do
    found ← within (get_root_node b)
    access_token ← find_root_token
    elim found [
      | none ↦ lift (err generic)
      | some node ↦ (do
        _ ← lift macaroon
        within (start_node b node passphrase)
        m ← lift serialized
        token ← lift (expected access_token)
        pure (node, (m, token)))
    ]
