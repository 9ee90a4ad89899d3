-- ===== src/Auth/Create.antt =====
-- The creation of access tokens, in senseicore/src/database.rs. `token_bytes` is what the generator of
-- random numbers fills in, and `uuid` the new identifier.
use sensei.Prelude.{
  ℕ, ◌≡◌, refl, ◌∙◌, Bool, true, false, not, ◌&&◌, Option, none, some, List, [], ◌∷◌, ◌++◌, Text,
  ◌=text◌, =text_refl, Outcome, ok, err, panic, find, any, select, arith, if◌then◌else◌,
}
use sensei.Text.{codes}
use sensei.Hex.{hex_str}
use sensei.Sql.{Table, IsTable, DbErr}
use sensei.Sql.Laws.{find-append, any-find}
use sensei.Auth.{AccessToken, is_expired, has_access_to_scope, is_valid, is_valid_token}
use sensei.Auth.Scopes.{HasNoComma, join, has_access_to_scope-join}
use sensei.Prelude.{All, leb, ◌==◌, ◌||◌, ap}
use sensei.Auth.Tokens.{same_id, token_row, checked, is_valid_token_lem}

-- The row that is inserted.
abbrev pub new_token : List ℕ → Text → Text → Text → ℕ → Bool → AccessToken
new_token token_bytes uuid name scope expires_at single_use = record {
  id = uuid;
  token = hex_str token_bytes;
  name = name;
  scope = scope;
  single_use = single_use;
  expires_at = expires_at;
}

-- What the columns of a token allow: at a time that is not past its expiry, where it has one, a
-- request without a scope, or of one of its scopes, or any if one of them is the asterisk.
abbrev pub allowed : (expires_at now : ℕ) → List Text → Option Text → Bool
allowed expires_at now scopes asked = ((expires_at == 0) || leb now expires_at) && elim asked [
  | none ↦ true
  | some scope ↦ any (λ s. (s =text codes "*") || (s =text scope)) scopes
]

module _ (table : Table AccessToken) where
  unfoldable pub get_root_access_token : List AccessToken → Outcome DbErr (Option AccessToken)
  get_root_access_token rows = table.one (λ r. r.scope =text codes "*") rows

  unfoldable pub create_access_token :
      List ℕ
      → Text
      → Text
      → Text
      → ℕ
      → Bool
      → List AccessToken
      → Outcome DbErr AccessToken × List AccessToken
  create_access_token token_bytes uuid name scope expires_at single_use rows =
      let access_token = new_token token_bytes uuid name scope expires_at single_use in
      elim (table.insert access_token rows) [
        | ok rows' ↦ (ok access_token, rows')
        | err e ↦ (err e, rows)
        | panic ↦ (panic, rows)
      ]

  unfoldable pub create_root_access_token :
      List ℕ → Text → List AccessToken → Outcome DbErr AccessToken × List AccessToken
  create_root_access_token token_bytes uuid rows =
      create_access_token token_bytes uuid (codes "root") (codes "*") 0 false rows

select-append_last :
    (q : AccessToken → Bool) (rows : List AccessToken) (t : AccessToken)
    → find q rows ≡ none
    → q t ≡ true
    → select (λ r. not (q r)) (rows ++ t ∷ []) ≡ rows
select-append_last q [] t missing hit = ground (arith, hit)
select-append_last q (x ∷ rows) t missing hit = ground (arith, hit, select-append_last q rows t)

module _ (table : Table AccessToken) (law : IsTable same_id true table) where
  -- The table after the insertion of a token whose identifier is new.
  insert_new :
      (t : AccessToken) (rows : List AccessToken)
      → find (λ r. r.id =text t.id) rows ≡ none
      → table.insert t rows ≡ ok (rows ++ t ∷ [])
  insert_new t rows new =
      let free : any (same_id t) rows ≡ false = any-find (λ r. r.id =text t.id) rows ∙ (rw new) in
      law.insert_lem t rows ∙ (rw (free, if◌then◌else◌))

  -- What a check makes of a token that was added last, when no other has its identifier or its text.
  is_valid_token-append :
      (now : ℕ) (asked : Option Text) (t : AccessToken) (rows : List AccessToken)
      → find (λ r. r.id =text t.id) rows ≡ none
      → token_row table law t.token rows ≡ none
      → is_valid_token table now t.token asked (rows ++ t ∷ []) ≡ (
        ok (is_valid now t asked),
        if t.single_use && is_valid now t asked then rows else rows ++ t ∷ [],
      )
  unfolding checked
  is_valid_token-append now asked t rows new unused =
      let found : token_row table law t.token (rows ++ t ∷ []) ≡ some t =
        find-append (λ r. r.token =text t.token) rows t
        ∙ (rw (unused, =text_refl t.token, if◌then◌else◌)) in
      let gone = select-append_last (λ r. r.id =text t.id) rows t new (=text_refl t.id) in
      ground (arith, is_valid_token_lem table law now t.token asked (rows ++ t ∷ []), found, gone)

  is_valid-allowed :
      (t : AccessToken) (now : ℕ) (asked : Option Text) (scope : Text) (scopes : List Text)
      → All HasNoComma (scope ∷ scopes)
      → t.scope ≡ join (scope ∷ scopes)
      → is_valid now t asked ≡ allowed t.expires_at now (scope ∷ scopes) asked
  unfolding is_valid is_expired has_access_to_scope
  is_valid-allowed t now none scope scopes plain column = ground arith
  is_valid-allowed t now (some s) scope scopes plain column =
      let granted = has_access_to_scope-join t scope scopes s plain column in
      let fresh : not (is_expired now t) ≡ ((t.expires_at == 0) || leb now t.expires_at) =
        ground arith in
      ap (λ b. b && has_access_to_scope t (some s)) fresh
      ∙ ap (λ b. ((t.expires_at == 0) || leb now t.expires_at) && b) granted

  -- For a new identifier, a text that no token has, and scopes without commas: the creation answers with
  -- the token of that text, and the token passes exactly the checks that are made by its expiry and for
  -- its scopes. A single-use token that passes one is gone, and the tokens are those from before its
  -- creation; otherwise a check leaves the tokens as the creation left them.
  pub is_valid_token-create_access_token :
      (token_bytes : List ℕ) (uuid name scope : Text) (scopes : List Text) (expires_at : ℕ)
      (single_use : Bool) (rows : List AccessToken)
      → find (λ r. r.id =text uuid) rows ≡ none
      → token_row table law (hex_str token_bytes) rows ≡ none
      → All HasNoComma (scope ∷ scopes)
      → let (r, rows') =
          create_access_token table token_bytes uuid name
            (join (scope ∷ scopes))
            expires_at
            single_use
            rows in
        (r
          ≡ ok (record {
            id = uuid;
            token = hex_str token_bytes;
            name = name;
            scope = join (scope ∷ scopes);
            single_use = single_use;
            expires_at = expires_at;
          }))
        × ((now : ℕ) (asked : Option Text)
            → is_valid_token table now (hex_str token_bytes) asked rows' ≡ (
              ok (allowed expires_at now (scope ∷ scopes) asked),
              if single_use && allowed expires_at now (scope ∷ scopes) asked then rows else rows',
            ))
  unfolding create_access_token
  is_valid_token-create_access_token token_bytes uuid name scope scopes expires_at single_use rows
        new unused plain =
      let t = new_token token_bytes uuid name (join (scope ∷ scopes)) expires_at single_use in
      let rows' = rows ++ t ∷ [] in
      rw (create_access_token, insert_new t rows new)
        (
          refl,
          λ now asked.
              is_valid_token-append now asked t rows new unused
              ∙ ap (λ (b : Bool). (ok b, if single_use && b then rows else rows'))
                  (is_valid-allowed t now asked scope scopes plain refl),
        )
