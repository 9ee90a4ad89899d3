-- ===== src/Grpc/Fits.antt =====
-- A response over gRPC is always one of the method's own kind (src/grpc/node.rs, src/grpc/adaptor.rs).
use sensei.Prelude.{◌≡◌, refl, ap, ◌∙◌, Option, none, some, true, false, Text, ok, arith}
use sensei.State.{next, run_ok, then_pure, lift, ◌>>=◌}
use sensei.Maps.{lookup}
use sensei.Node.Types.{NodeRequest, NodeResponse, failed}
use sensei.Node.Answers.{Answers}
use sensei.Transport.{
  Nodes, Server, MacaroonSession, aim, other, verify_macaroon, served, request_start, request_stop,
  holding, macaroon_with_session_from_hex_str,
}
use sensei.Transport.Steps.{holding_ok, served_ok}
use sensei.Grpc.Requests
use sensei.Grpc.Replies
use sensei.Grpc.Methods.{Method, Request, Response, into, try_into}
use sensei.Grpc.Service.{
  verified_request, unauthenticated, unknown, dispatch, authenticated_request, converted, method,
  raw_macaroon_from_metadata,
}

-- The nodes answer each request in its own kind.
abbrev pub AnswersInKind : {Handle Macaroon World : Type 0} → Nodes Handle Macaroon World → Type 0
AnswersInKind {Handle} {Macaroon} {World} n =
    (handle : Handle) (request : NodeRequest) (w w' : World) (r : NodeResponse)
    → n.serve handle request w ≡ (ok r, w')
    → Answers request r

module _ {Handle Macaroon World : Type 0} (n : Nodes Handle Macaroon World) (law : AnswersInKind n)
    (macaroon : Macaroon) (session : MacaroonSession) (s s' : Server Handle World)
    (r : NodeResponse) where
  dispatch-other :
      (request : NodeRequest)
      → aim request ≡ other
      → dispatch n macaroon session request s ≡ (ok r, s')
      → Answers request r
  unfolding dispatch
  dispatch-other request kind e = go (lookup session.pubkey s.service.node_directory) refl
    where
      go :
          (entry : Option (Option Handle))
          → lookup session.pubkey s.service.node_directory ≡ entry
          → Answers request r
      go (some (some handle)) found =
          let run = rw (found, kind, dispatch, verified_request) at e in
          let (_, (t, (_, last))) =
            run_ok (verify_macaroon n unauthenticated handle macaroon session)
              (λ _. served n (λ e'. unknown) handle request) s s' r run in
          law handle request t.world s'.world r
            (served_ok n (λ e'. unknown) handle request t s' r last)
      go (some none) found = absurd (ground (arith, found, e))
      go none found = absurd (ground (arith, found, kind, e))

  dispatch-stop :
      dispatch n macaroon session NodeRequest.stop_node s ≡ (ok r, s')
      → Answers NodeRequest.stop_node r
  unfolding dispatch aim
  dispatch-stop e = go (lookup session.pubkey s.service.node_directory) refl
    where
      go :
          (entry : Option (Option Handle))
          → lookup session.pubkey s.service.node_directory ≡ entry
          → Answers NodeRequest.stop_node r
      go (some (some handle)) found =
          let run = rw (found, dispatch) at e in
          let (_, (t, (_, last))) =
            run_ok (verify_macaroon n unauthenticated handle macaroon session)
              (λ _. verified_request n handle session NodeRequest.stop_node) s s' r run in
          (then_pure (request_stop n unknown session.pubkey) (λ _. NodeResponse.stopped)
            (record t { held = false }) s' r last).1
      go (some none) found = absurd (ground (arith, found, e))
      go none found = absurd (ground (arith, found, e))

  dispatch-start :
      (passphrase : Text)
      → dispatch n macaroon session (NodeRequest.start_node passphrase) s ≡ (ok r, s')
      → Answers (NodeRequest.start_node passphrase) r
  unfolding dispatch aim
  dispatch-start passphrase e = go (lookup session.pubkey s.service.node_directory) refl
    where
      request : NodeRequest
      request = NodeRequest.start_node passphrase

      go :
          (entry : Option (Option Handle))
          → lookup session.pubkey s.service.node_directory ≡ entry
          → Answers (NodeRequest.start_node passphrase) r
      go (some (some handle)) found =
          let run = rw (found, dispatch) at e in
          let (_, (t, (_, last))) =
            run_ok (verify_macaroon n unauthenticated handle macaroon session)
              (λ _. served n (λ e'. unknown) handle request) s s' r run in
          law handle request t.world s'.world r
            (served_ok n (λ e'. unknown) handle request t s' r last)
      go (some none) found = absurd (ground (arith, found, e))
      go none found =
          let run = rw (found, dispatch) at e in
          (then_pure (request_start n unauthenticated session.pubkey passphrase)
            (λ _. NodeResponse.started) (record s { held = false }) s' r run).1

  dispatch-Answers :
      (request : NodeRequest)
      → dispatch n macaroon session request s ≡ (ok r, s')
      → Answers request r
  unfolding aim
  dispatch-Answers NodeRequest.stop_node e = dispatch-stop e
  dispatch-Answers (NodeRequest.start_node passphrase) e = dispatch-start passphrase e
  dispatch-Answers request e = dispatch-other request refl e

-- The message that a response in kind becomes.
fits :
    (m : Method) (request : Request m) (r : NodeResponse)
    → Answers (into m request) r
    → (message : Response m) × (try_into m r ≡ ok message)
unfolding Requests.from_start_node Requests.from_stop_node Requests.from_get_unused_address
    Requests.from_get_balance Requests.from_open_channels Requests.from_pay_invoice
    Requests.from_decode_invoice Requests.from_keysend Requests.from_create_invoice
    Requests.from_label_payment Requests.from_delete_payment Requests.from_connect_peer
    Requests.from_list_channels Requests.from_list_payments Requests.from_close_channel
    Requests.from_info Requests.from_list_peers Requests.from_sign_message
    Requests.from_verify_message Requests.from_list_unspent Requests.from_network_graph_info
    Requests.from_list_known_peers Requests.from_add_known_peer Requests.from_remove_known_peer
    Replies.to_start_node Replies.to_stop_node Replies.to_get_unused_address Replies.to_get_balance
    Replies.to_open_channels Replies.to_pay_invoice Replies.to_decode_invoice Replies.to_keysend
    Replies.to_create_invoice Replies.to_label_payment Replies.to_delete_payment
    Replies.to_connect_peer Replies.to_list_channels Replies.to_list_payments
    Replies.to_close_channel Replies.to_info Replies.to_list_peers Replies.to_sign_message
    Replies.to_verify_message Replies.to_list_unspent Replies.to_network_graph_info
    Replies.to_list_known_peers Replies.to_add_known_peer Replies.to_remove_known_peer
fits Method.start_node request r e = (tt, ap Replies.to_start_node e)
fits Method.stop_node request r e = (tt, ap Replies.to_stop_node e)
fits Method.get_unused_address request r (x, e) = (_, ap Replies.to_get_unused_address e)
fits Method.get_balance request r (x, e) = (_, ap Replies.to_get_balance e)
fits Method.open_channels request r (x, e) = (_, ap Replies.to_open_channels e)
fits Method.pay_invoice request r e = (tt, ap Replies.to_pay_invoice e)
fits Method.decode_invoice request r (x, e) = (_, ap Replies.to_decode_invoice e)
fits Method.keysend request r e = (tt, ap Replies.to_keysend e)
fits Method.create_invoice request r (x, e) = (_, ap Replies.to_create_invoice e)
fits Method.label_payment request r e = (tt, ap Replies.to_label_payment e)
fits Method.delete_payment request r e = (tt, ap Replies.to_delete_payment e)
fits Method.connect_peer request r e = (tt, ap Replies.to_connect_peer e)
fits Method.list_channels request r (x, e) = (_, ap Replies.to_list_channels e)
fits Method.list_payments request r (x, e) = (_, ap Replies.to_list_payments e)
fits Method.close_channel request r e = (tt, ap Replies.to_close_channel e)
fits Method.info request r (x, e) = (_, ap Replies.to_info e)
fits Method.list_peers request r (x, e) = (_, ap Replies.to_list_peers e)
fits Method.sign_message request r (x, e) = (_, ap Replies.to_sign_message e)
fits Method.verify_message request r (x, e) = (_, ap Replies.to_verify_message e)
fits Method.list_unspent request r (x, e) = (_, ap Replies.to_list_unspent e)
fits Method.network_graph_info request r (x, e) = (_, ap Replies.to_network_graph_info e)
fits Method.list_known_peers request r (x, e) = (_, ap Replies.to_list_known_peers e)
fits Method.add_known_peer request r e = (tt, ap Replies.to_add_known_peer e)
fits Method.remove_known_peer request r e = (tt, ap Replies.to_remove_known_peer e)

module _ {Handle Macaroon World : Type 0} (n : Nodes Handle Macaroon World)
    (law : AnswersInKind n) where
  pub authenticated_request-Answers :
      (metadata : Option (Option Text)) (request : NodeRequest) (s s' : Server Handle World)
      (r : NodeResponse)
      → authenticated_request n metadata request s ≡ (ok r, s')
      → Answers request r
  unfolding authenticated_request
  authenticated_request-Answers metadata request s s' r e =
      let opened =
        λ (hex : Text). macaroon_with_session_from_hex_str n (failed unauthenticated) hex in
      let (hex, (t, (_, after_hex))) =
        run_ok (lift (raw_macaroon_from_metadata metadata))
          (λ hex. lift (opened hex) >>= λ p. holding (dispatch n p.0 p.1 request)) s s' r e in
      let (p, (u, (_, after_session))) =
        run_ok (lift (opened hex)) (λ p. holding (dispatch n p.0 p.1 request)) t s' r after_hex in
      let (v, run) = holding_ok (dispatch n p.0 p.1 request) u s' r after_session in
      dispatch-Answers n law p.0 p.1 (record u { held = true }) v r request run

  converted_lem :
      (m : Method) (r : NodeResponse) (message : Response m) (s : Server Handle World)
      → try_into m r ≡ ok message
      → converted m r s ≡ (ok message, s)
  converted_lem m r message s converts = rw converts refl

  -- For nodes that answer each request in its own kind: when a method's request is answered, its
  -- response converts, and the method answers with the message; so no method fails because a response
  -- is of another kind.
  pub method-converts :
      (m : Method) (metadata : Option (Option Text)) (request : Request m)
      (s s' : Server Handle World) (r : NodeResponse)
      → authenticated_request n metadata (into m request) s ≡ (ok r, s')
      → (message : Response m) × ((try_into m r ≡ ok message)
          × (method n m metadata request s ≡ (ok message, s')))
  unfolding method
  method-converts m metadata request s s' r e =
      let (message, converts) =
        fits m request r (authenticated_request-Answers metadata (into m request) s s' r e) in
      (message, (converts, ap (next (converted m)) e ∙ converted_lem m r message s' converts))
