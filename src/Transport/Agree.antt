-- ===== src/Transport/Agree.antt =====
-- What a request does over HTTP (src/http/node.rs) and over gRPC (src/grpc/node.rs).
use sensei.Prelude.{
  ◌≡◌, ◌≢◌, ◌=text◌, refl, ap, ◌∙◌, ◌⊎◌, inl, inr, Bool, true, false, Option, none, some, Text,
  Outcome, ok, err, panic, Bool-cases, Option-cases,
}
use sensei.Hex.{to_vec}
use sensei.Maps.{lookup}
use sensei.Sql.{DbErr}
use sensei.Admin.{AdminService, Error, MacaroonRow, handle_start_node}
use sensei.State.{◌>>=◌, ◌>>◌, pure, next}
use sensei.Prelude.{if◌then◌else◌}
use sensei.Node.Types.{
  NodeRequest, NodeResponse, NodeRequestError, sensei_error, Ending, failed, hangs,
}
use sensei.Transport.{
  finished, Nodes, Server, MacaroonSession, Aim, stop, start, other, aim, verify_macaroon, served,
  request_start, released, holding, drop_guard, Handling, is_hung, macaroon_from_hex_str,
  macaroon_with_session_from_hex_str,
}
use sensei.Grpc.Service as Grpc
use sensei.Grpc.Service.{Status}
use sensei.Http
use sensei.Http.{StatusCode}

-- A refusal over HTTP: a status, or a response that is an error.
abbrev pub IsRefused : Outcome (Ending StatusCode) NodeResponse → Type 0
IsRefused h =
    (h ≡ err (failed Http.unauthorized))
    ⊎ ((e : NodeRequestError) × (h ≡ ok (NodeResponse.error e)))

-- An answer over gRPC beside one over HTTP.
abbrev pub Agree :
    Outcome (Ending Status) NodeResponse → Outcome (Ending StatusCode) NodeResponse → Type 0
Agree (ok r) h = h ≡ ok r
Agree (err (failed e)) h = IsRefused h
Agree (err hangs) h = h ≡ err hangs
Agree panic h = h ≡ panic

-- Two ends of a request agree, in the answer and in the state that is left.
abbrev pub SameEnd :
    {S : Type 0}
    → Outcome (Ending Status) NodeResponse × S
    → Outcome (Ending StatusCode) NodeResponse × S
    → Type 0
SameEnd g h = Agree g.0 h.0 × (g.1 ≡ h.1)

module _ {Handle Macaroon World : Type 0} (n : Nodes Handle Macaroon World) (macaroon : Macaroon)
    (session : MacaroonSession) (request : NodeRequest) (s : Server Handle World) where
  served-Agree :
      (handle : Handle)
      → SameEnd (served n (λ e. Grpc.unknown) handle request s) (Http.answered n handle request s)
  served-Agree handle = go (n.serve handle request s.world) refl
    where
      go :
          (x : Outcome (Ending NodeRequestError) NodeResponse × World)
          → n.serve handle request s.world ≡ x
          → SameEnd
              (served n (λ e. Grpc.unknown) handle request s)
              (Http.answered n handle request s)
      go (ok a, w) first = rw first (refl, refl)
      go (err (failed e), w) first = rw first (inr (e, refl), refl)
      go (err hangs, w) first = rw first (refl, refl)
      go (panic, w) first = rw first (refl, refl)

  -- The macaroon is checked first, with the same outcome.
  checked-Agree :
      (handle : Handle)
      → SameEnd
          ((verify_macaroon n Grpc.unauthenticated handle macaroon session >>= λ _.
              served n (λ e. Grpc.unknown) handle request)
            s)
          ((verify_macaroon n Http.unauthorized handle macaroon session >>= λ _.
              Http.answered n handle request)
            s)
  unfolding verify_macaroon
  checked-Agree handle =
      go (n.backend.macaroon.one (λ r. r.id =text session.id) s.service.macaroons) refl
    where
      go :
          (found : Outcome DbErr (Option MacaroonRow))
          → n.backend.macaroon.one (λ r. r.id =text session.id) s.service.macaroons ≡ found
          → SameEnd
              ((verify_macaroon n Grpc.unauthenticated handle macaroon session >>= λ _.
                  served n (λ e. Grpc.unknown) handle request)
                s)
              ((verify_macaroon n Http.unauthorized handle macaroon session >>= λ _.
                  Http.answered n handle request)
                s)
      go (ok none) found = rw found (inl refl, refl)
      go (ok (some row)) found = elim (Bool-cases (n.verifies handle macaroon)) [
        | inl made ↦ rw (found, made) (served-Agree handle)
        | inr foreign ↦ rw (found, foreign) (inl refl, refl)
      ]
      go (err e) found = rw found (inl refl, refl)
      go panic found = rw found (refl, refl)

  -- The start of a node, once the guard has been dropped.
  started-Agree :
      (passphrase : Text)
      → SameEnd
          ((drop_guard
              >> (request_start n Grpc.unauthenticated session.pubkey passphrase
                  >> pure NodeResponse.started))
            s)
          ((drop_guard
              >> (request_start n Http.unauthorized session.pubkey passphrase
                  >> pure NodeResponse.started))
            s)
  unfolding request_start
  started-Agree passphrase = go (
      handle_start_node n.backend session.pubkey passphrase (n.macaroon session.pubkey passphrase)
        s.service)
    where
      free : Server Handle World
      free = record s { held = false }

      go :
          (x : Outcome Error Text × AdminService Handle)
          → SameEnd
              (next {S = Server Handle World}
                (λ _. pure NodeResponse.started)
                (finished Grpc.unauthenticated x free))
              (next {S = Server Handle World}
                (λ _. pure NodeResponse.started)
                (finished Http.unauthorized x free))
      go (ok m, service) = (refl, refl)
      go (err e, service) = (inl refl, refl)
      go (panic, service) = (refl, refl)

  dispatch-Agree :
      (kind : Aim)
      → aim request ≡ kind
      → kind ≢ stop
      → SameEnd
          (Grpc.dispatch n macaroon session request s)
          (Http.dispatch n macaroon session request s)
  unfolding Grpc.dispatch Http.dispatch
  dispatch-Agree kind e apart =
      go (lookup session.pubkey s.service.node_directory) kind refl e apart
    where
      go :
          (entry : Option (Option Handle)) (kind : Aim)
          → lookup session.pubkey s.service.node_directory ≡ entry
          → aim request ≡ kind
          → kind ≢ stop
          → SameEnd
              (Grpc.dispatch n macaroon session request s)
              (Http.dispatch n macaroon session request s)
      go entry stop found is apart = absurd (apart refl)
      go (some (some handle)) (start p) found is apart =
          rw (found, is, Grpc.dispatch, Http.dispatch, Grpc.verified_request, Http.verified_request)
            (checked-Agree handle)
      go (some (some handle)) other found is apart =
          rw (found, is, Grpc.dispatch, Http.dispatch, Grpc.verified_request, Http.verified_request)
            (checked-Agree handle)
      go (some none) (start p) found is apart =
          rw (found, Grpc.dispatch, Http.dispatch) (inr (sensei_error, refl), refl)
      go (some none) other found is apart =
          rw (found, Grpc.dispatch, Http.dispatch) (inr (sensei_error, refl), refl)
      go none other found is apart =
          rw (found, is, Grpc.dispatch, Http.dispatch) (inr (sensei_error, refl), refl)
      go none (start p) found is apart =
          rw (found, is, Grpc.dispatch, Http.dispatch) (started-Agree p)

hung-Agree :
    (g : Outcome (Ending Status) NodeResponse) (h : Outcome (Ending StatusCode) NodeResponse)
    → Agree g h
    → is_hung g ≡ is_hung h
hung-Agree (ok r) h e = rw e refl
hung-Agree (err (failed x)) h (inl e) = rw e refl
hung-Agree (err (failed x)) h (inr (y, e)) = rw e refl
hung-Agree (err hangs) h e = rw e refl
hung-Agree panic h e = rw e refl

module _ {Handle Macaroon World : Type 0} (n : Nodes Handle Macaroon World) where
  released-Agree :
      (g : Outcome (Ending Status) NodeResponse × Server Handle World)
      (h : Outcome (Ending StatusCode) NodeResponse × Server Handle World)
      → SameEnd g h
      → SameEnd (released g) (released h)
  released-Agree g h (answers, same) =
      let freed : Bool → Server Handle World → Server Handle World =
        λ b t. if b then t else record t { held = false } in
      (answers, ap (freed (is_hung g.0)) same ∙ ap (λ b. freed b h.1) (hung-Agree g.0 h.0 answers))

  holding-Agree :
      (g : Handling Handle World Status NodeResponse)
      (h : Handling Handle World StatusCode NodeResponse) (s : Server Handle World)
      → SameEnd (g (record s { held = true })) (h (record s { held = true }))
      → SameEnd (holding g s) (holding h s)
  holding-Agree g h s same = elim (Bool-cases s.held) [
    | inl held ↦ rw held (refl, refl)
    | inr free ↦
        rw free (released-Agree (g (record s { held = true })) (h (record s { held = true })) same)
  ]

  -- A request other than a stop, which brings its macaroon in a header: over both transports it leaves
  -- the same state, and it is answered with the same response, or refused over both, or panics over
  -- both, or ends over neither.
  pub handle_authenticated_request-Agree :
      (request : NodeRequest) (text : Text) (cookie : Option Text) (s : Server Handle World)
      → aim request ≢ stop
      → SameEnd
          (Grpc.authenticated_request n (some (some text)) request s)
          (Http.handle_authenticated_request n request (some (some text)) cookie s)
  unfolding Grpc.authenticated_request Http.handle_authenticated_request
      Grpc.raw_macaroon_from_metadata Http.get_macaroon_hex_str_from_cookies_or_header
      macaroon_with_session_from_hex_str macaroon_from_hex_str
  handle_authenticated_request-Agree request text cookie s apart =
      elim (Option-cases (to_vec text)) [
        | inl malformed ↦
            rw
              (
                malformed, Grpc.authenticated_request, Http.handle_authenticated_request,
                macaroon_with_session_from_hex_str, macaroon_from_hex_str,
              )
              (refl, refl)
        | inr (bytes, digits) ↦ elim (Option-cases (n.deserialize bytes)) [
          | inl unread ↦
              rw
                (
                  digits, unread, Grpc.authenticated_request, Http.handle_authenticated_request,
                  macaroon_with_session_from_hex_str, macaroon_from_hex_str,
                )
                (inl refl, refl)
          | inr (macaroon, read) ↦ elim (Option-cases (n.session macaroon)) [
            | inl unsigned ↦
                rw
                  (
                    digits, read, unsigned, Grpc.authenticated_request,
                    Http.handle_authenticated_request, macaroon_with_session_from_hex_str,
                    macaroon_from_hex_str,
                  )
                  (inl refl, refl)
            | inr (session, known) ↦
                rw
                  (
                    digits, read, known, Grpc.authenticated_request,
                    Http.handle_authenticated_request, macaroon_with_session_from_hex_str,
                    macaroon_from_hex_str,
                  )
                  (holding-Agree (Grpc.dispatch n macaroon session request)
                    (Http.dispatch n macaroon session request) s
                    (dispatch-Agree n macaroon session request (record s { held = true })
                      (aim request) refl apart))
          ]
        ]
      ]
