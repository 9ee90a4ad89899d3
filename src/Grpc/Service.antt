-- ===== src/Grpc/Service.antt =====
-- src/grpc/node.rs: the service `Node`, whose methods are the requests of src/grpc/adaptor.rs, each
-- authenticated, served and turned into its message.
use sensei.Prelude.{Option, none, some, Text, Outcome, ok, err, panic}
use sensei.State.{Run, ◌>>=◌, ◌>>◌, pure, lift}
use sensei.Maps.{lookup}
use sensei.Node.Types.{NodeRequest, NodeResponse, Ending, failed}
use sensei.Transport.{
  Nodes, MacaroonSession, Handling, holding, drop_guard, stop, start, other, aim,
  macaroon_with_session_from_hex_str, verify_macaroon, served, request_start, request_stop,
}
use sensei.Grpc.Methods.{Method, Request, Response, into, try_into}

-- `tonic::Status`, without the messages.
pub data Status : Type 0 where
  unauthenticated not_found unknown : Status

-- The value `macaroon` of the metadata, which may be no text.
unfoldable pub raw_macaroon_from_metadata : Option (Option Text) → Outcome (Ending Status) Text
raw_macaroon_from_metadata (some (some macaroon)) = ok macaroon
raw_macaroon_from_metadata (some none) = err (failed unauthenticated)
raw_macaroon_from_metadata none = err (failed unauthenticated)

-- What becomes of an answer: a response that does not convert is an unknown error.
abbrev pub converted : {S : Type 0} (m : Method) → NodeResponse → Run S (Ending Status) (Response m)
converted m response = lift (elim (try_into m response) [
  | ok message ↦ ok message
  | err e ↦ err (failed unknown)
  | panic ↦ panic
])

module _ {Handle Macaroon World : Type 0} (n : Nodes Handle Macaroon World) where
  -- A request to a running node, which has made the macaroon. The guard is dropped before the admin
  -- service is called.
  abbrev pub verified_request :
      Handle → MacaroonSession → NodeRequest → Handling Handle World Status NodeResponse
  verified_request handle session request = elim (aim request) [
    | stop ↦ (do drop_guard; request_stop n unknown session.pubkey; pure NodeResponse.stopped)
    | start passphrase ↦ served n (λ e. unknown) handle request
    | other ↦ served n (λ e. unknown) handle request
  ]

  unfoldable pub dispatch :
      Macaroon → MacaroonSession → NodeRequest → Handling Handle World Status NodeResponse
  dispatch macaroon session request s = elim (lookup session.pubkey s.service.node_directory) [
    | some (some handle) ↦
        (do
          verify_macaroon n unauthenticated handle macaroon session
          verified_request handle session request)
          s
    | some none ↦ (err (failed not_found), s)
    | none ↦ elim (aim request) [
      | stop ↦ (err (failed not_found), s)
      | start passphrase ↦
          (do
            drop_guard
            request_start n unauthenticated session.pubkey passphrase
            pure NodeResponse.started)
            s
      | other ↦ (err (failed not_found), s)
    ]
  ]

  unfoldable pub authenticated_request :
      Option (Option Text) → NodeRequest → Handling Handle World Status NodeResponse
  authenticated_request metadata request = do
    macaroon_hex_string ← lift (raw_macaroon_from_metadata metadata)
    (macaroon, session) ←
        lift (macaroon_with_session_from_hex_str n (failed unauthenticated) macaroon_hex_string)
    holding (dispatch macaroon session request)

  -- A method of the service, all of which have the same body.
  unfoldable pub method :
      (m : Method) → Option (Option Text) → Request m → Handling Handle World Status (Response m)
  method m metadata request = do
    response ← authenticated_request metadata (into m request)
    converted m response
