-- ===== src/Transport/Wedged.antt =====
-- The request to stop a node over HTTP waits for a lock that it holds itself (src/http/node.rs), and
-- every later request waits for it too.
use sensei.Prelude.{
  List, ◌≡◌, ◌=text◌, refl, ap, ◌∙◌, true, false, Option, none, some, Text, ok, err,
}
use sensei.Maps.{lookup, remove}
use sensei.State.{◌>>◌, pure, run_on, run_err}
use sensei.Admin.{NodeRow, NodeStatus, MacaroonRow, get_node_by_pubkey, stop_node, update_node}
use sensei.Node.Types.{NodeRequest, NodeResponse, hangs}
use sensei.Transport.{
  Nodes, Server, MacaroonSession, Handling, aim, verify_macaroon, on_service, waiting, released,
  request_stop,
}
use sensei.Transport.Refused.{opened, opened_run}
use sensei.Grpc.Service as Grpc
use sensei.Http

module _ {Handle Macaroon World : Type 0} (n : Nodes Handle Macaroon World) where
  -- Once a request holds the lock for good, every request whose macaroon can be read waits for ever.
  held_run :
      (request : NodeRequest) (text : Text) (cookie : Option Text) (s : Server Handle World)
      (opening : Macaroon × MacaroonSession)
      → opened n text ≡ some opening
      → s.held ≡ true
      → (Http.handle_authenticated_request n request (some (some text)) cookie s ≡ (err hangs, s))
        × (Grpc.authenticated_request n (some (some text)) request s ≡ (err hangs, s))
  held_run request text cookie s (macaroon, session) read held =
      let (http, grpc) = opened_run n request text cookie s macaroon session read in
      (http ∙ (rw held refl), grpc ∙ (rw held refl))

  verify_macaroon-own :
      {E : Type 0} (e : E) (handle : Handle) (macaroon : Macaroon) (session : MacaroonSession)
      (row : MacaroonRow) (s : Server Handle World)
      → n.backend.macaroon.one (λ r. r.id =text session.id) s.service.macaroons ≡ ok (some row)
      → n.verifies handle macaroon ≡ true
      → verify_macaroon n e handle macaroon session s ≡ (ok tt, s)
  unfolding verify_macaroon
  verify_macaroon-own e handle macaroon session row s known made =
      rw (known, made, verify_macaroon) refl

  -- What follows on the search for the node.
  abbrev after_found : {E : Type 0} → E → Text → Option NodeRow → Handling Handle World E (Unit {0})
  after_found e pubkey found = elim found [
    | none ↦ pure tt
    | some node ↦ (do
      waiting (on_service e (stop_node n.backend pubkey))
      on_service e (update_node n.backend (record node { status = NodeStatus.stopped })))
  ]

  request_stop_run :
      {E : Type 0} (e : E) (pubkey : Text) (node : NodeRow) (s : Server Handle World)
      → n.backend.node.one (λ r. r.pubkey =text pubkey) s.service.nodes ≡ ok (some node)
      → request_stop n e pubkey s ≡ after_found e pubkey (some node) s
  unfolding request_stop get_node_by_pubkey
  request_stop_run e pubkey node s found =
      run_on (on_service e (get_node_by_pubkey n.backend pubkey)) (after_found e pubkey) s s
        (some node) (rw (found, get_node_by_pubkey) refl)

  -- By a request that holds the lock, `stop_node` waits for itself.
  request_stop-hangs :
      {E : Type 0} (e : E) (pubkey : Text) (node : NodeRow) (s : Server Handle World)
      → n.backend.node.one (λ r. r.pubkey =text pubkey) s.service.nodes ≡ ok (some node)
      → s.held ≡ true
      → request_stop n e pubkey s ≡ (err hangs, s)
  request_stop-hangs e pubkey node s found held =
      request_stop_run e pubkey node s found
      ∙ run_err (waiting (on_service e (stop_node n.backend pubkey)))
          (λ _. on_service e (update_node n.backend (record node { status = NodeStatus.stopped })))
          s s hangs (rw held refl)

  -- By a request that has dropped its guard, it ends, and does not hang.
  request_stop-ends :
      {E : Type 0} (e : E) (pubkey : Text) (node : NodeRow) (s : Server Handle World)
      (rows : List NodeRow)
      → n.backend.node.one (λ r. r.pubkey =text pubkey) s.service.nodes ≡ ok (some node)
      → n.backend.node.update (record node { status = NodeStatus.stopped }) s.service.nodes
        ≡ ok rows
      → s.held ≡ false
      → request_stop n e pubkey s ≡ (
        ok tt,
        record s {
          service = record s.service {
            node_directory = remove pubkey s.service.node_directory;
            nodes = rows;
          };
        },
      )
  unfolding stop_node update_node
  request_stop-ends e pubkey node s rows found kept free =
      request_stop_run e pubkey node s found ∙ (rw (free, kept, update_node, stop_node) refl)

  -- For a running node that the database knows and can update, with a macaroon of its own, and a lock
  -- that is free: the request over HTTP to stop the node never ends, nothing but the lock is changed, and
  -- from then on no request of any node whose macaroon can be read ends, over either transport; over
  -- gRPC the same request takes the node out of the directory, marks its row as stopped and gives the
  -- lock back.
  pub stop_node-wedges :
      (text : Text) (cookie : Option Text) (s : Server Handle World) (macaroon : Macaroon)
      (session : MacaroonSession) (handle : Handle) (row : MacaroonRow) (node : NodeRow)
      (rows : List NodeRow)
      → opened n text ≡ some (macaroon, session)
      → s.held ≡ false
      → lookup session.pubkey s.service.node_directory ≡ some (some handle)
      → n.backend.macaroon.one (λ r. r.id =text session.id) s.service.macaroons ≡ ok (some row)
      → n.verifies handle macaroon ≡ true
      → n.backend.node.one (λ r. r.pubkey =text session.pubkey) s.service.nodes ≡ ok (some node)
      → n.backend.node.update (record node { status = NodeStatus.stopped }) s.service.nodes
        ≡ ok rows
      → let wedged : Server Handle World = record s { held = true } in
        (Http.stop_node n (some (some text)) cookie s ≡ (err hangs, wedged))
        × ((request : NodeRequest) (later : Text) (jar : Option Text)
              (opening : Macaroon × MacaroonSession)
            → opened n later ≡ some opening
            → (Http.handle_authenticated_request n request (some (some later)) jar wedged
                ≡ (err hangs, wedged))
              × (Grpc.authenticated_request n (some (some later)) request wedged
                  ≡ (err hangs, wedged)))
        × (Grpc.authenticated_request n (some (some text)) NodeRequest.stop_node s ≡ (
          ok NodeResponse.stopped,
          record s {
            service = record s.service {
              node_directory = remove session.pubkey s.service.node_directory;
              nodes = rows;
            };
            held = false;
          },
        ))
  unfolding Http.stop_node Http.dispatch Grpc.dispatch aim
  stop_node-wedges text cookie s macaroon session handle row node rows read free entry known made
        found kept =
      let wedged : Server Handle World = record s { held = true } in
      let dropped : Server Handle World = record s { held = false } in
      let stop = NodeRequest.stop_node in
      let (http, grpc) = opened_run n stop text cookie s macaroon session read in
      let check =
        verify_macaroon-own Http.unauthorized handle macaroon session row wedged known made in
      let hang =
        request_stop-hangs Http.unprocessable_entity session.pubkey node wedged found refl in
      let http_end : Http.dispatch n macaroon session stop wedged ≡ (err hangs, wedged) =
        rw (entry, Http.dispatch)
          (run_on (verify_macaroon n Http.unauthorized handle macaroon session)
              (λ _. Http.verified_request n handle session stop) wedged wedged tt check
            ∙ run_err (request_stop n Http.unprocessable_entity session.pubkey)
                (λ _. pure NodeResponse.stopped) wedged wedged hangs hang) in
      let grpc_check =
        verify_macaroon-own Grpc.unauthenticated handle macaroon session row wedged known made in
      let after : Server Handle World = record s {
        service = record s.service {
          node_directory = remove session.pubkey s.service.node_directory;
          nodes = rows;
        };
        held = false;
      } in
      let ends = request_stop-ends Grpc.unknown session.pubkey node dropped rows found kept refl in
      let grpc_end : Grpc.dispatch n macaroon session stop wedged
          ≡ (ok NodeResponse.stopped, after) =
        rw (entry, Grpc.dispatch)
          (run_on (verify_macaroon n Grpc.unauthenticated handle macaroon session)
              (λ _. Grpc.verified_request n handle session stop) wedged wedged tt grpc_check
            ∙ run_on (request_stop n Grpc.unknown session.pubkey) (λ _. pure NodeResponse.stopped)
                dropped after tt ends) in
      (
        http ∙ (rw free (ap released http_end)),
        λ request later jar opening readable.
            held_run request later jar wedged opening readable refl,
        grpc ∙ (rw free (ap released grpc_end)),
      )
