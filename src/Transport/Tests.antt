-- ===== src/Transport/Tests.antt =====
-- The theorems about the two transports, at a service with one running node.
pub mod Running
use sensei.Prelude.{
  ◌≡◌, ◌≢◌, ◌=text◌, refl, false, true, arith, none, some, [], ◌∷◌, Text, Outcome, ok, err, panic,
  inl, if◌then◌else◌, Option,
}
use sensei.Text.{codes}
use sensei.Hex.{to_vec, to_vec_from, digit}
use sensei.Maps.{lookup, remove}
use sensei.Sql.Laws.{list_table-IsTable}
use sensei.Events.{NodeState}
use sensei.Node.Queries.{LightningNode}
use sensei.Node.Tests.{node}
use sensei.Admin.{NodeStatus}
use sensei.Node.Types.{NodeRequest, NodeResponse, failed, hangs}
use sensei.Transport.{aim, stop, other, Server, MacaroonSession}
use sensei.Transport.Agree.{SameEnd, handle_authenticated_request-Agree}
use sensei.Transport.Refused.{same_macaroon, opened, handle_authenticated_request-refused}
use sensei.Transport.Wedged.{stop_node-wedges}
use sensei.Grpc.Service as Grpc
use sensei.Http
use Running.{nodes, running, session, alice, key}

other-stop : other ≢ stop
other-stop e = ground (arith, e)

handle_authenticated_request-Agree_example :
    SameEnd
      (Grpc.authenticated_request nodes (some (some (codes "ab"))) NodeRequest.get_balance running)
      (Http.handle_authenticated_request nodes NodeRequest.get_balance
        (some (some (codes "ab")))
        none
        running)
unfolding aim
handle_authenticated_request-Agree_example =
    handle_authenticated_request-Agree nodes NodeRequest.get_balance (codes "ab") none running
      other-stop

-- The same service, whose database does not know the macaroon.
abbrev forgetful : Server LightningNode NodeState
forgetful = record running { service = record running.service { macaroons = [] } }

handle_authenticated_request-refused_example :
    (Http.handle_authenticated_request nodes NodeRequest.get_balance
        (some (some (codes "ab")))
        none
        forgetful
      ≡ (err (failed Http.unauthorized), forgetful))
    × (Grpc.authenticated_request nodes (some (some (codes "ab"))) NodeRequest.get_balance forgetful
        ≡ (err (failed Grpc.unauthenticated), forgetful))
unfolding to_vec to_vec_from digit lookup ◌=text◌
handle_authenticated_request-refused_example =
    handle_authenticated_request-refused nodes NodeRequest.get_balance (codes "ab") none forgetful
      (171 ∷ []) session node (list_table-IsTable same_macaroon true) refl refl refl (inl refl)

stop_node-wedges_example :
    let wedged : Server LightningNode NodeState = record running { held = true } in
    (Http.stop_node nodes (some (some (codes "ab"))) none running ≡ (err hangs, wedged))
    × ((request : NodeRequest) (later : Text) (jar : Option Text) (opening : Text × MacaroonSession)
        → opened nodes later ≡ some opening
        → (Http.handle_authenticated_request nodes request (some (some later)) jar wedged
            ≡ (err hangs, wedged))
          × (Grpc.authenticated_request nodes (some (some later)) request wedged
              ≡ (err hangs, wedged)))
    × (Grpc.authenticated_request nodes (some (some (codes "ab"))) NodeRequest.stop_node running ≡ (
      ok NodeResponse.stopped,
      record running {
        service = record running.service {
          node_directory = remove session.pubkey running.service.node_directory;
          nodes = record alice { status = NodeStatus.stopped } ∷ [];
        };
        held = false;
      },
    ))
unfolding to_vec to_vec_from digit lookup ◌=text◌
stop_node-wedges_example =
    stop_node-wedges nodes (codes "ab") none running (171 ∷ []) session node key alice
      (record alice { status = NodeStatus.stopped } ∷ []) refl refl refl refl refl refl refl
