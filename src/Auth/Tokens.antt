-- ===== src/Auth/Tokens.antt =====
-- What the check of a token leaves of the tokens: a single-use token works once.
use sensei.Prelude.{
  ℕ, ◌≡◌, refl, ap, Bool, true, false, not, ◌&&◌, Option, none, some, List, [], ◌∷◌, Text, ◌=text◌,
  =text_iff, ok, err, panic, find, select, All, arith, if◌then◌else◌, Option-cases, Bool-cases, inl,
  inr,
}
use sensei.Sql.{Table, IsTable}
use sensei.Auth.{
  AccessToken, start_node, batch_create_node, NodeCreateInfo, get_scope_from_request, is_expired,
  has_access_to_scope, is_valid, get_access_token_by_token, delete_access_token, use_up,
  get_token_from_cookies_or_header, authenticate_request, is_valid_token,
}

-- No two rows have the same token.
abbrev pub HasUniqueTokens : List AccessToken → Type 0
HasUniqueTokens [] = Unit
HasUniqueTokens (x ∷ rows) =
    All (λ (y : AccessToken). (y.token =text x.token) ≡ false) rows × HasUniqueTokens rows

abbrev pub same_id : AccessToken → AccessToken → Bool
same_id a b = b.id =text a.id

absent :
    (token id : Text) (rows : List AccessToken)
    → All (λ (y : AccessToken). (y.token =text token) ≡ false) rows
    → find (λ r. r.token =text token) (select (λ r. not (r.id =text id)) rows) ≡ none
absent token id [] h = refl
absent token id (x ∷ rows) h = ground (arith, h.0, absent token id rows h.1)

-- The row of a token is gone once its id is deleted.
find-select_token :
    (token : Text) (t : AccessToken) (rows : List AccessToken)
    → HasUniqueTokens rows
    → find (λ r. r.token =text token) rows ≡ some t
    → find (λ r. r.token =text token) (select (λ r. not (r.id =text t.id)) rows) ≡ none
find-select_token token t [] h e = refl
find-select_token token t (x ∷ rows) h e = elim (Bool-cases (x.token =text token)) [
  | inl hit ↦
      let same : x ≡ t = ground arith in
      let here : x.token ≡ token = (=text_iff x.token token).0 hit in
      let ids : (x.id =text t.id) ≡ true = (=text_iff x.id t.id).1 (ap (λ r. r.id) same) in
      ground (arith, ids, absent token t.id rows (rw (← here) h.0))
  | inr miss ↦ ground (arith, miss, find-select_token token t rows h.1 (ground arith))
]

module _ (table : Table AccessToken) (law : IsTable same_id true table) where
  -- The token that a request brings, as the table holds it.
  abbrev pub token_row : Text → List AccessToken → Option AccessToken
  token_row token rows = find (λ r. r.token =text token) rows

  -- What a check makes of a row: its answer, and the tokens that are left.
  unfoldable pub checked : ℕ → Option Text → Text → List AccessToken → Bool × List AccessToken
  checked now scope token rows = elim (token_row token rows) [
    | none ↦ (false, rows)
    | some t ↦
        if is_valid now t scope
        then (true, if t.single_use then select (λ r. not (r.id =text t.id)) rows else rows)
        else (false, rows)
  ]

  pub is_valid_token_lem :
      (now : ℕ) (token : Text) (scope : Option Text) (rows : List AccessToken)
      → is_valid_token table now token scope rows
        ≡ (ok (checked now scope token rows).0, (checked now scope token rows).1)
  unfolding is_valid_token checked get_access_token_by_token use_up delete_access_token
  is_valid_token_lem now token scope rows = elim (Option-cases (token_row token rows)) [
    | inl missing ↦ ground (arith, law.one_lem (λ r. r.token =text token) rows)
    | inr (t, found) ↦ ground (
      arith,
      law.one_lem (λ r. r.token =text token) rows,
      law.delete_many_lem (λ r. r.id =text t.id) rows,
    )
  ]

  -- For tokens that are unique: a check that a single-use token passes is its last one. Every later
  -- check of the token fails, at any time and for any scope.
  pub is_valid_token-once :
      (now later : ℕ) (token : Text) (t : AccessToken) (scope other : Option Text)
      (rows : List AccessToken)
      → HasUniqueTokens rows
      → token_row token rows ≡ some t
      → t.single_use ≡ true
      → is_valid now t scope ≡ true
      → let (r, rows') = is_valid_token table now token scope rows in
        (r ≡ ok true) × (is_valid_token table later token other rows' ≡ (ok false, rows'))
  unfolding checked
  is_valid_token-once now later token t scope other rows unique found once valid =
      let first = is_valid_token_lem now token scope rows in
      let rows' = select (λ (r : AccessToken). not (r.id =text t.id)) rows in
      let second = is_valid_token_lem later token other rows' in
      let gone = find-select_token token t rows unique found in
      let run : is_valid_token table now token scope rows ≡ (ok true, rows') =
        ground (arith, first) in
      rw run (refl, ground (arith, second, gone))

  -- For a token that is not single-use, or a check that fails: the tokens stay as they are.
  is_valid_token-keeps :
      (now : ℕ) (token : Text) (scope : Option Text) (rows : List AccessToken)
      → ((t : AccessToken)
          → token_row token rows ≡ some t
          → (t.single_use && is_valid now t scope) ≡ false)
      → (is_valid_token table now token scope rows).1 ≡ rows
  unfolding checked
  is_valid_token-keeps now token scope rows lasting = elim (Option-cases (token_row token rows)) [
    | inl missing ↦ ground (arith, is_valid_token_lem now token scope rows)
    | inr (t, found) ↦ ground (arith, is_valid_token_lem now token scope rows, lasting t found)
  ]

  -- Over HTTP a token is checked as over gRPC, once the header, or without one the cookie, gives it.
  pub authenticate_request-is_valid_token :
      (now : ℕ) (scope : Text) (cookie : Option Text) (header : Option (Option Text))
      (rows : List AccessToken)
      → authenticate_request table now scope cookie header rows
        ≡ elim (get_token_from_cookies_or_header cookie header) [
          | ok token ↦ is_valid_token table now token (some scope) rows
          | err e ↦ (err e, rows)
          | panic ↦ (panic, rows)
        ]
  unfolding authenticate_request is_valid_token get_token_from_cookies_or_header
      get_access_token_by_token
  authenticate_request-is_valid_token now scope cookie (some (some token)) rows =
      ground (arith, law.one_lem (λ r. r.token =text token) rows)
  authenticate_request-is_valid_token now scope cookie (some none) rows = refl
  authenticate_request-is_valid_token now scope (some token) none rows =
      ground (arith, law.one_lem (λ r. r.token =text token) rows)
  authenticate_request-is_valid_token now scope none none rows = refl

-- Over gRPC every token that has not expired may start a node and create nodes in a batch, whatever its
-- scope: those requests ask for none.
is_valid-ungated :
    (now : ℕ) (t : AccessToken) (pubkey passphrase : Text) (nodes : List NodeCreateInfo)
    → (is_valid now t (get_scope_from_request (start_node pubkey passphrase))
        ≡ not (is_expired now t))
      × (is_valid now t (get_scope_from_request (batch_create_node nodes)) ≡ not (is_expired now t))
unfolding is_valid has_access_to_scope get_scope_from_request
is_valid-ungated now t pubkey passphrase nodes = ground arith
