-- ===== src/Admin/Admits.antt =====
-- What the token is good for that `CreateAdmin` (senseicore/src/services/admin.rs) answers with.
use sensei.Prelude.{
  ℕ, ◌≡◌, refl, ap, ◌∙◌, sym, Bool, true, false, Option, none, some, List, [], ◌∷◌, Text, ◌=text◌,
  Outcome, ok, err, panic, find,
}
use sensei.Text.{codes}
use sensei.Hex.{hex_str}
use sensei.State.{next, run_ok}
use sensei.Sql.{Table, IsTable}
use sensei.Auth.{AccessToken, is_valid_token}
use sensei.Auth.Scopes.{join}
use sensei.Auth.Tokens.{same_id, token_row}
use sensei.Auth.Create.{
  allowed, new_token, create_root_access_token, create_access_token,
  is_valid_token-create_access_token,
}
use sensei.Admin.{
  AdminService, Backend, Generated, NodeRow, root, Error, create_node, ◌>>=◌, ◌>>◌, pure, lift,
}
use sensei.Admin.Requests.{Call, within, started, root_token, handle_create_admin}

-- The columns of a root token allow everything at any time.
root-allowed : (now : ℕ) (asked : Option Text) → allowed 0 now (codes "*" ∷ []) asked ≡ true
unfolding ◌=text◌
root-allowed now none = refl
root-allowed now (some scope) = refl

module _ {Handle : Type 0} (b : Backend Handle) (table : Table AccessToken)
    (law : IsTable same_id true table) where
  -- A start leaves the tokens as they are.
  started-tokens :
      (start : Bool) (node : NodeRow) (passphrase : Text) (s s' : AdminService Handle)
      (tokens tokens' : List AccessToken) (r : Outcome Error (Unit {0}))
      → started b table start node passphrase (s, tokens) ≡ (r, (s', tokens'))
      → tokens ≡ tokens'
  started-tokens true node passphrase s s' tokens tokens' r e = ap (λ x. x.1.1) e
  started-tokens false node passphrase s s' tokens tokens' r e = ap (λ x. x.1.1) e

  root_token_lem :
      (token_bytes : List ℕ) (uuid : Text) (s : AdminService Handle) (tokens : List AccessToken)
      → find (λ r. r.id =text uuid) tokens ≡ none
      → token_row table law (hex_str token_bytes) tokens ≡ none
      → root_token b table token_bytes uuid (s, tokens) ≡ (
        ok (new_token token_bytes uuid (codes "root") (codes "*") 0 false),
        (s, (create_root_access_token table token_bytes uuid tokens).1),
      )
  unfolding root_token create_root_access_token join
  root_token_lem token_bytes uuid s tokens new unused =
      let made : (create_access_token table token_bytes uuid (codes "root") (codes "*") 0 false
            tokens).0
          ≡ ok (new_token token_bytes uuid (codes "root") (codes "*") 0 false) =
        (is_valid_token-create_access_token table law token_bytes uuid (codes "root") (codes "*") []
          0 false tokens new unused ((refl, tt), tt)).0 in
      rw (root_token, create_root_access_token, made) refl

  -- The calls of `CreateAdmin` behind the token, and behind the macaroon.
  abbrev answer : NodeRow → AccessToken → Bool → Text → Text → Call Handle (NodeRow × (Text × Text))
  answer n t start passphrase m = started b table start n passphrase >> pure (n, (m, t.token))

  abbrev with_token :
      NodeRow
      → Bool
      → Text
      → Outcome Error Text
      → AccessToken
      → Call Handle (NodeRow × (Text × Text))
  with_token n start passphrase serialized t =
      lift serialized >>= λ m. answer n t start passphrase m

  abbrev text_of : Outcome Error (NodeRow × (Text × Text)) → Text
  text_of (ok (n, (m, text))) = text
  text_of (err e) = []
  text_of panic = []

  -- What is left once the token is there: its text is the answer, and the tokens stay.
  answered :
      (n : NodeRow) (t : AccessToken) (start : Bool) (passphrase : Text)
      (serialized : Outcome Error Text) (s s' : AdminService Handle)
      (tokens tokens' : List AccessToken) (node : NodeRow) (macaroon token : Text)
      → with_token n start passphrase serialized t (s, tokens)
        ≡ (ok (node, (macaroon, token)), (s', tokens'))
      → (t.token ≡ token) × (tokens ≡ tokens')
  answered n t start passphrase serialized s s' tokens tokens' node macaroon token run =
      let (m, (t1, (written, run1))) =
        run_ok (lift serialized) (λ m. answer n t start passphrase m) (s, tokens) (s', tokens')
          (node, (macaroon, token)) run in
      let (_, (t2, (start_run, run2))) =
        run_ok (started b table start n passphrase)
          (λ _. pure {A = NodeRow × (Text × Text)} (n, (m, t.token))) t1 (s', tokens')
          (node, (macaroon, token)) run1 in
      (
        ap (λ x. text_of x.0) run2,
        ap (λ x. x.1.1) written
            ∙ started-tokens start n passphrase t1.0 t2.0 t1.1 t2.1 (ok tt) start_run
            ∙ ap (λ x. x.1.1) run2,
      )

  -- For a new identifier and a text that no token has: the token that `CreateAdmin` answers with, whether
  -- it starts the node or not, passes every check, at any time and for any scope, and stays.
  pub handle_create_admin-admits :
      (username alias passphrase : Text) (start : Bool) (generated : Outcome Error Generated)
      (serialized : Outcome Error Text) (token_bytes : List ℕ) (uuid : Text)
      (s s' : AdminService Handle) (tokens tokens' : List AccessToken) (node : NodeRow)
      (macaroon token : Text)
      → find (λ r. r.id =text uuid) tokens ≡ none
      → token_row table law (hex_str token_bytes) tokens ≡ none
      → handle_create_admin b table username alias passphrase start generated serialized token_bytes
          uuid
          (s, tokens)
        ≡ (ok (node, (macaroon, token)), (s', tokens'))
      → (now : ℕ) (asked : Option Text)
      → is_valid_token table now token asked tokens' ≡ (ok true, tokens')
  unfolding handle_create_admin create_root_access_token create_access_token join
  handle_create_admin-admits username alias passphrase start generated serialized token_bytes uuid s
        s' tokens tokens' node macaroon token new unused run now asked =
      let token' = new_token token_bytes uuid (codes "root") (codes "*") 0 false in
      let drawing = λ (n : NodeRow).
        root_token b table token_bytes uuid >>= with_token n start passphrase serialized in
      let (n, ((s1, tokens1), (creation, run1))) =
        run_ok (within (create_node b username alias root generated)) drawing (s, tokens)
          (s', tokens') (node, (macaroon, token)) run in
      let same : tokens ≡ tokens1 = ap (λ x. x.1.1) creation in
      let start_run =
        sym (
          ap (next (with_token n start passphrase serialized))
            (root_token_lem token_bytes uuid s1 tokens1 (rw (← same) new) (rw (← same) unused)))
        ∙ run1 in
      let (text, kept) =
        answered n token' start passphrase serialized s1 s'
          (create_root_access_token table token_bytes uuid tokens1).1 tokens' node macaroon token
          start_run in
      let checked =
        (is_valid_token-create_access_token table law token_bytes uuid (codes "root") (codes "*") []
            0 false tokens1 (rw (← same) new) (rw (← same) unused) ((refl, tt), tt)).1
          now asked in
      rw (← text, ← kept) (rw (← root-allowed now asked) checked)
