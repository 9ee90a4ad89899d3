-- ===== src/Transport.antt =====
-- What the two transports share: the macaroon that a request brings (senseicore/src/utils.rs,
-- src/http/utils.rs, src/grpc/utils.rs), the running nodes behind the directory of the admin service,
-- and the lock of that directory.
pub mod Agree
pub mod Refused
pub mod Wedged
pub mod Steps
pub mod Tests
use sensei.Prelude.{
  ◌==◌, Bool, true, false, Option, none, some, List, [], ◌∷◌, Text, ◌=text◌, Outcome, ok, err,
  panic, if◌then◌else◌,
}
use sensei.Hex.{to_vec}
use sensei.State.{Run, ◌>>=◌, ◌>>◌, pure, lift}
use sensei.Sql.{Table}
use sensei.Admin.{
  AdminService, Backend, NodeRow, MacaroonRow, Error, Service, get_node_by_pubkey, stop_node,
  update_node, NodeStatus, handle_start_node,
}
use sensei.Node.Types.{
  NodeRequest, NodeResponse, NodeRequestError, Ending, failed, hangs, map_ending,
}

pub record MacaroonSession : Type 0 where
  pub id : Text
  pub pubkey : Text

-- The running nodes as the transports see them. `deserialize` and `session` are those of the macaroon
-- library and of serde_json, `verifies` is its check against a node's seed, `serve` is `call`, over the
-- state `World` of all nodes, and `macaroon` is `get_macaroon_for_node`.
pub record Nodes (Handle Macaroon World : Type 0) : Type 0 where
  pub backend : Backend Handle
  pub deserialize : Text → Option Macaroon
  pub session : Macaroon → Option MacaroonSession
  pub verifies : Handle → Macaroon → Bool
  pub serve : Handle → NodeRequest → Run World (Ending NodeRequestError) NodeResponse
  pub macaroon : (pubkey passphrase : Text) → Outcome Error Text

-- `held` says that a request holds the lock of the directory.
pub record Server (Handle World : Type 0) : Type 0 where
  pub service : AdminService Handle
  pub world : World
  pub held : Bool

-- A request that ends in a status of type `E`, or not at all.
abbrev pub Handling {ℓ} : (Handle World E : Type 0) → Type ℓ → Type ℓ
Handling Handle World E A = Run (Server Handle World) (Ending E) A

abbrev pub is_hung : {E A : Type 0} → Outcome (Ending E) A → Bool
is_hung (ok a) = false
is_hung (err (failed e)) = false
is_hung (err hangs) = true
is_hung panic = false

-- The guard of the lock is dropped when the function returns or panics; who hangs keeps it.
abbrev pub released :
    {Handle World E A : Type 0}
    → Outcome (Ending E) A × Server Handle World
    → Outcome (Ending E) A × Server Handle World
released (r, s) = (r, if is_hung r then s else record s { held = false })

-- `node_directory.lock().await`, with what is done until the end of the function. Who waits for a lock
-- that is never given back hangs.
abbrev pub holding :
    {Handle World E A : Type 0} → Handling Handle World E A → Handling Handle World E A
holding m s = if s.held then (err hangs, s) else released (m (record s { held = true }))

-- `drop(node_directory)`
abbrev pub drop_guard : {Handle World E : Type 0} → Handling Handle World E (Unit {0})
drop_guard s = (ok tt, record s { held = false })

-- A block of the admin service that takes the lock itself: it waits for ever while the request that calls
-- it holds the lock.
abbrev pub waiting :
    {Handle World E A : Type 0} → Handling Handle World E A → Handling Handle World E A
waiting m s = if s.held then (err hangs, s) else m s

-- A call of the admin service whose errors become one status.
abbrev pub on_service :
    {Handle World E A : Type 0} → E → Service Handle A → Handling Handle World E A
on_service e m s =
    let (r, service) = m s.service in
    (
      elim r [ ok a ↦ ok a | err e' ↦ err (failed e) | panic ↦ panic ],
      record s { service = service },
    )

-- The same of a call that has ended, without its value.
abbrev pub finished :
    {Handle World E A : Type 0}
    → E
    → Outcome Error A × AdminService Handle
    → Server Handle World
    → Outcome (Ending E) (Unit {0}) × Server Handle World
finished e (ok a, service) s = (ok tt, record s { service = service })
finished e (err e', service) s = (err (failed e), record s { service = service })
finished e (panic, service) s = (panic, record s { service = service })

-- The requests that the transports treat apart.
pub data Aim : Type 0 where
  stop other : Aim
  start : (passphrase : Text) → Aim

unfoldable pub aim : NodeRequest → Aim
aim NodeRequest.stop_node = stop
aim (NodeRequest.start_node passphrase) = start passphrase
aim request = other

module _ {Handle Macaroon World : Type 0} (n : Nodes Handle Macaroon World) where
  -- `.unwrap()` on the digits.
  unfoldable pub macaroon_from_hex_str : {E : Type 0} → E → Text → Outcome E Macaroon
  macaroon_from_hex_str e hex_str = elim (to_vec hex_str) [
    | none ↦ panic
    | some bytes ↦ elim (n.deserialize bytes) [ none ↦ err e | some m ↦ ok m ]
  ]

  unfoldable pub macaroon_with_session_from_hex_str :
      {E : Type 0} → E → Text → Outcome E (Macaroon × MacaroonSession)
  macaroon_with_session_from_hex_str e hex_str = elim (macaroon_from_hex_str e hex_str) [
    | ok macaroon ↦ elim (n.session macaroon) [ none ↦ err e | some s ↦ ok (macaroon, s) ]
    | err e' ↦ err e'
    | panic ↦ panic
  ]

  -- The macaroon is known to the database and made by this node. Every error is the same status.
  unfoldable pub verify_macaroon :
      {E : Type 0} → E → Handle → Macaroon → MacaroonSession → Handling Handle World E (Unit {0})
  verify_macaroon e handle macaroon session s = (
    elim (n.backend.macaroon.one (λ r. r.id =text session.id) s.service.macaroons) [
      | ok none ↦ err (failed e)
      | ok (some row) ↦ if n.verifies handle macaroon then ok tt else err (failed e)
      | err e' ↦ err (failed e)
      | panic ↦ panic
    ],
    s,
  )

  -- The request to the node itself.
  abbrev pub served :
      {E : Type 0}
      → (NodeRequestError → E)
      → Handle
      → NodeRequest
      → Handling Handle World E NodeResponse
  served f handle request s =
      let (r, world) = n.serve handle request s.world in
      (
        elim r [ ok a ↦ ok a | err e ↦ err (map_ending f e) | panic ↦ panic ],
        record s { world = world },
      )

  -- `AdminRequest::StartNode`, whose macaroon is dropped. The node is entered in the directory.
  unfoldable pub request_start : {E : Type 0} → E → Text → Text → Handling Handle World E (Unit {0})
  request_start e pubkey passphrase = waiting (λ s.
      finished e
        (handle_start_node n.backend pubkey passphrase (n.macaroon pubkey passphrase) s.service) s)

  -- `AdminRequest::StopNode`: `AdminService::stop_node` waits for the lock of the directory, once the node
  -- has been found.
  unfoldable pub request_stop : {E : Type 0} → E → Text → Handling Handle World E (Unit {0})
  request_stop e pubkey = do
    found ← on_service e (get_node_by_pubkey n.backend pubkey)
    elim found [
      | none ↦ pure tt
      | some node ↦ (do
        waiting (on_service e (stop_node n.backend pubkey))
        on_service e (update_node n.backend (record node { status = NodeStatus.stopped })))
    ]
