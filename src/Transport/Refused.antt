-- ===== src/Transport/Refused.antt =====
-- The requests that no macaroon allows (src/http/node.rs, src/grpc/node.rs, senseicore/src/utils.rs).
use sensei.Prelude.{
  if◌then◌else◌, ◌≡◌, ◌=text◌, refl, sym, ap, ◌∙◌, ◌⊎◌, Outcome, inl, inr, Bool, true, false,
  Option, none, some, Text, ok, err, arith, find, Option-cases,
}
use sensei.Hex.{to_vec}
use sensei.Maps.{lookup}
use sensei.Sql.{IsTable}
use sensei.Admin.{MacaroonRow}
use sensei.State.{run_err}
use sensei.Node.Types.{NodeRequest, Ending, failed}
use sensei.Transport.{
  Nodes, Server, MacaroonSession, verify_macaroon, is_hung, released, holding, Handling,
  macaroon_from_hex_str, macaroon_with_session_from_hex_str,
}
use sensei.Grpc.Service as Grpc
use sensei.Http

-- Two rows of macaroons with the same id.
abbrev pub same_macaroon : MacaroonRow → MacaroonRow → Bool
same_macaroon a b = b.id =text a.id

module _ {Handle Macaroon World : Type 0} (n : Nodes Handle Macaroon World) where
  -- What the text of a macaroon stands for, if anything.
  abbrev pub opened : Text → Option (Macaroon × MacaroonSession)
  opened text = elim (to_vec text) [
    | none ↦ none
    | some bytes ↦ elim (n.deserialize bytes) [
      | none ↦ none
      | some macaroon ↦ elim (n.session macaroon) [
        | none ↦ none
        | some session ↦ some (macaroon, session)
      ]
    ]
  ]

  -- How the two transports go on with a macaroon that can be read.
  pub opened_run :
      (request : NodeRequest) (text : Text) (cookie : Option Text) (s : Server Handle World)
      (macaroon : Macaroon) (session : MacaroonSession)
      → opened text ≡ some (macaroon, session)
      → (Http.handle_authenticated_request n request (some (some text)) cookie s
          ≡ holding (Http.dispatch n macaroon session request) s)
        × (Grpc.authenticated_request n (some (some text)) request s
            ≡ holding (Grpc.dispatch n macaroon session request) s)
  unfolding Grpc.authenticated_request Http.handle_authenticated_request
      Grpc.raw_macaroon_from_metadata Http.get_macaroon_hex_str_from_cookies_or_header
      macaroon_with_session_from_hex_str macaroon_from_hex_str
  opened_run request text cookie s macaroon session e = elim (Option-cases (to_vec text)) [
    | inl malformed ↦ absurd (ground (arith, malformed, e))
    | inr (bytes, digits) ↦ elim (Option-cases (n.deserialize bytes)) [
      | inl unread ↦ absurd (ground (arith, digits, unread, e))
      | inr (m, read) ↦ elim (Option-cases (n.session m)) [
        | inl unsigned ↦ absurd (ground (arith, digits, read, unsigned, e))
        | inr (s', known) ↦
            let both : (m ≡ macaroon) × (s' ≡ session) = ground (arith, digits, read, known, e) in
            rw
              (
                digits, read, known, Grpc.authenticated_request, Http.handle_authenticated_request,
                macaroon_with_session_from_hex_str, macaroon_from_hex_str,
              )
              (rw (both.0, both.1) (refl, refl))
      ]
    ]
  ]

  -- Who gets the lock that is free, and leaves the state but for the lock.
  holding_lem :
      {E A : Type 0} (m : Handling Handle World E A) (x : Outcome (Ending E) A)
      (s : Server Handle World)
      → s.held ≡ false
      → m (record s { held = true }) ≡ (x, record s { held = true })
      → is_hung x ≡ false
      → holding m s ≡ (x, s)
  holding_lem {E} {A} m x s free run calm =
      let marked : Bool → Outcome (Ending E) A × Server Handle World =
        λ b. (x, record s { held = b }) in
      let got : holding m s ≡ released (m (record s { held = true })) = rw free refl in
      got ∙ ap released run ∙ (rw (calm, if◌then◌else◌) (ap marked (sym free)))

  verify_macaroon-foreign :
      {E : Type 0} (e : E) (handle : Handle) (macaroon : Macaroon) (session : MacaroonSession)
      (s : Server Handle World)
      → n.backend.macaroon.one (λ r. r.id =text session.id) s.service.macaroons
        ≡ ok (find (λ r. r.id =text session.id) s.service.macaroons)
      → (find (λ r. r.id =text session.id) s.service.macaroons ≡ none)
        ⊎ (n.verifies handle macaroon ≡ false)
      → verify_macaroon n e handle macaroon session s ≡ (err (failed e), s)
  unfolding verify_macaroon
  verify_macaroon-foreign e handle macaroon session s row (inl unknown) =
      rw (row, unknown, verify_macaroon) refl
  verify_macaroon-foreign e handle macaroon session s row (inr unmade) =
      elim (Option-cases (find (λ r. r.id =text session.id) s.service.macaroons)) [
        | inl unknown ↦ rw (row, unknown, verify_macaroon) refl
        | inr (known, found) ↦ rw (row, found, unmade, verify_macaroon) refl
      ]

  -- For a table of macaroons that is up, a running node, and a lock that is free: a macaroon that the
  -- database does not know, or that the node has not made, gets nothing from either transport, and
  -- changes nothing.
  pub handle_authenticated_request-refused :
      (request : NodeRequest) (text : Text) (cookie : Option Text) (s : Server Handle World)
      (macaroon : Macaroon) (session : MacaroonSession) (handle : Handle)
      → IsTable same_macaroon true n.backend.macaroon
      → opened text ≡ some (macaroon, session)
      → s.held ≡ false
      → lookup session.pubkey s.service.node_directory ≡ some (some handle)
      → (find (λ r. r.id =text session.id) s.service.macaroons ≡ none)
        ⊎ (n.verifies handle macaroon ≡ false)
      → (Http.handle_authenticated_request n request (some (some text)) cookie s
          ≡ (err (failed Http.unauthorized), s))
        × (Grpc.authenticated_request n (some (some text)) request s
            ≡ (err (failed Grpc.unauthenticated), s))
  unfolding Grpc.dispatch Http.dispatch
  handle_authenticated_request-refused request text cookie s macaroon session handle law read free
        entry foreign =
      let (http, grpc) = opened_run request text cookie s macaroon session read in
      let row = law.one_lem (λ r. r.id =text session.id) s.service.macaroons in
      let http_check =
        verify_macaroon-foreign Http.unauthorized handle macaroon session (record s { held = true })
          row foreign in
      let grpc_check =
        verify_macaroon-foreign Grpc.unauthenticated handle macaroon session
          (record s { held = true }) row foreign in
      let held : Server Handle World = record s { held = true } in
      let http_end : Http.dispatch n macaroon session request held
          ≡ (err (failed Http.unauthorized), held) =
        rw (entry, Http.dispatch)
          (run_err (verify_macaroon n Http.unauthorized handle macaroon session)
            (λ _. Http.verified_request n handle session request) held held
            (failed Http.unauthorized) http_check) in
      let grpc_end : Grpc.dispatch n macaroon session request held
          ≡ (err (failed Grpc.unauthenticated), held) =
        rw (entry, Grpc.dispatch)
          (run_err (verify_macaroon n Grpc.unauthenticated handle macaroon session)
            (λ _. Grpc.verified_request n handle session request) held held
            (failed Grpc.unauthenticated) grpc_check) in
      (
        http
            ∙ holding_lem (Http.dispatch n macaroon session request)
                (err (failed Http.unauthorized)) s free http_end refl,
        grpc
            ∙ holding_lem (Grpc.dispatch n macaroon session request)
                (err (failed Grpc.unauthenticated)) s free grpc_end refl,
      )
