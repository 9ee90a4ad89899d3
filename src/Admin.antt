-- ===== src/Admin.antt =====
-- senseicore/src/services/admin.rs: the nodes that the service makes, starts and stops, and the ports
-- that it gives them.
mod Tests
pub mod Ports
pub mod Admits
pub mod Directory
pub mod Batch
pub mod Batches
pub mod Builds
pub mod Requests
use sensei.Prelude.{
  ℕ, zero, suc, ◌+◌, ◌-◌, ◌%◌, ◌^◌, ◌==◌, Bool, true, false, not, ◌&&◌, Option, none, some, List,
  [], ◌∷◌, ◌++◌, map, Text, ◌=text◌, any, select, Outcome, ok, err, panic, if◌then◌else◌, unwrap,
  is_empty,
}
use sensei.Sql.{Table, DbErr}
use sensei.Maps.{lookup, insert, remove}
use sensei.State.{Run}
pub use sensei.State.{◌>>=◌, ◌>>◌, pure, lift}

pub data NodeRole : Type 0 where
  root default : NodeRole

pub data NodeStatus : Type 0 where
  stopped running : NodeStatus

-- entity/src/node.rs, without the two timestamps. Ports are of 16 bits, as they are given out.
pub record NodeRow : Type 0 where
  pub id : Text
  pub role : NodeRole
  pub username : Text
  pub alias : Text
  pub network : Text
  pub listen_addr : Text
  pub listen_port : ℕ
  pub pubkey : Text
  pub status : NodeStatus

pub record SenseiConfig : Type 0 where
  pub api_host : Text
  pub network : Text
  pub port_range_min : ℕ
  pub port_range_max : ℕ

-- What a node's seed row and macaroon row hold.
pub record SeedRow : Type 0 where
  pub node_id : Text
  pub v : Text

pub record MacaroonRow : Type 0 where
  pub id : Text
  pub node_id : Text
  pub encrypted_macaroon : Text

-- The service, with the tables behind it. `Handle` stands for a `NodeHandle`; an entry of the directory
-- without one is a node that is being started. `graph` is the network graph that the root node shares.
pub record AdminService (Handle : Type 0) : Type 0 where
  pub node_directory : List (Text × Option Handle)
  pub available_ports : List ℕ
  pub graph : Option Handle
  pub nodes : List NodeRow
  pub seeds : List SeedRow
  pub macaroons : List MacaroonRow

pub data Error : Type 0 where
  generic : Error

-- `min..max`, of `n` numbers.
pub range : ℕ → ℕ → List ℕ
range min zero = []
range min (suc n) = min ∷ range (min + 1) n

-- The ports in use, as `u16`.
unfoldable pub list_ports_in_use : List NodeRow → List ℕ
list_ports_in_use nodes = map (λ node. node.listen_port % 2 ^ 16) nodes

-- The queue of ports that `AdminService::new` makes.
unfoldable pub new_available_ports : SenseiConfig → List NodeRow → List ℕ
new_available_ports config nodes =
    select (λ port. not (any (λ p. p == port) (list_ports_in_use nodes)))
      (range config.port_range_min (config.port_range_max - config.port_range_min))

abbrev pub Service {ℓ} : Type 0 → Type ℓ → Type ℓ
Service Handle A = Run (AdminService Handle) Error A

-- A write to a table, with its error turned into the service's.
abbrev pub stored :
    {Handle Row : Type 0}
    → Outcome DbErr (List Row)
    → (List Row → AdminService Handle)
    → AdminService Handle
    → Outcome Error (Unit {0}) × AdminService Handle
stored (ok rows) put s = (ok tt, put rows)
stored (err e) put s = (err generic, s)
stored panic put s = (panic, s)

-- `available_ports.pop_front().unwrap()`
unfoldable pub pop_port : {Handle : Type 0} → Service Handle ℕ
pop_port s = elim s.available_ports [
  | [] ↦ (panic, s)
  | port ∷ rest ↦ (ok port, record s { available_ports = rest })
]

unfoldable pub listen_port_of : {Handle : Type 0} → NodeRole → Service Handle ℕ
listen_port_of root = pure 9735
listen_port_of default = pop_port

abbrev pub is_root : NodeRole → Bool
is_root root = true
is_root default = false

-- What is made for a new node behind its port: the id, the directory, the seed, the key and the
-- macaroon.
pub record Generated : Type 0 where
  pub node_id : Text
  pub encrypted_seed : Text
  pub pubkey : Text
  pub macaroon_id : Text
  pub encrypted_macaroon : Text

-- The tables of the nodes, and what a start of a node needs: `new_node` is `LightningNode::new`.
pub record Backend (Handle : Type 0) : Type 0 where
  pub config : SenseiConfig
  pub node : Table NodeRow
  pub seed : Table SeedRow
  pub macaroon : Table MacaroonRow
  pub new_node : NodeRow → Text → Outcome Error Handle

module _ {Handle : Type 0} (b : Backend Handle) where
  unfoldable pub build_node :
      Text
      → Text
      → NodeRole
      → Outcome Error Generated
      → Service Handle (NodeRow × (SeedRow × MacaroonRow))
  build_node username alias role generated = do
    listen_port ← listen_port_of role
    g ← lift generated
    let seed : SeedRow = record { node_id = g.node_id; v = g.encrypted_seed }
    let macaroon : MacaroonRow = record {
      id = g.macaroon_id;
      node_id = g.node_id;
      encrypted_macaroon = g.encrypted_macaroon;
    }
    let node : NodeRow = record {
      id = g.node_id;
      role = role;
      username = username;
      alias = alias;
      network = b.config.network;
      listen_addr = b.config.api_host;
      listen_port = listen_port;
      pubkey = g.pubkey;
      status = stopped;
    }
    pure (node, (seed, macaroon))

  unfoldable pub insert_seed : SeedRow → Service Handle (Unit {0})
  insert_seed seed s = stored (b.seed.insert seed s.seeds) (λ rows. record s { seeds = rows }) s

  unfoldable pub insert_macaroon : MacaroonRow → Service Handle (Unit {0})
  insert_macaroon macaroon s =
      stored (b.macaroon.insert macaroon s.macaroons) (λ rows. record s { macaroons = rows }) s

  unfoldable pub insert_node : NodeRow → Service Handle (Unit {0})
  insert_node node s = stored (b.node.insert node s.nodes) (λ rows. record s { nodes = rows }) s

  unfoldable pub create_node :
      Text → Text → NodeRole → Outcome Error Generated → Service Handle NodeRow
  create_node username alias role generated = do
    (node, (seed, macaroon)) ← build_node username alias role generated
    insert_seed seed
    insert_macaroon macaroon
    insert_node node
    pure node

  -- `save` and `update` of a row that stands in the table.
  unfoldable pub update_node : NodeRow → Service Handle (Unit {0})
  update_node node s = stored (b.node.update node s.nodes) (λ rows. record s { nodes = rows }) s

  -- The root node's graph is shared; the entry of the node in the directory gets its handle.
  unfoldable pub enter_handle : NodeRow → Handle → Service Handle (Unit {0})
  enter_handle node handle s = (
    ok tt,
    record s {
      graph = if is_root node.role then some handle else s.graph;
      node_directory = elim (lookup node.pubkey s.node_directory) [
        | some _ ↦ insert node.pubkey (some handle) s.node_directory
        | none ↦ s.node_directory
      ];
    },
  )

  -- The node is entered in the directory before it is made, and its handle afterwards.
  unfoldable pub start_node : NodeRow → Text → Service Handle (Unit {0})
  unfolding update_node enter_handle
  start_node node passphrase s = elim (lookup node.pubkey s.node_directory) [
    | some entry ↦ (ok tt, s)
    | none ↦
        (do
          handle ← lift (b.new_node node passphrase)
          enter_handle node handle
          update_node (record node { status = running; listen_addr = b.config.api_host }))
          (record s { node_directory = insert node.pubkey none s.node_directory })
  ]

  -- What is stopped with the handle lies outside the directory.
  unfoldable pub stop_node : Text → Service Handle (Unit {0})
  stop_node pubkey s = (ok tt, record s { node_directory = remove pubkey s.node_directory })

  unfoldable pub get_root_node : Service Handle (Option NodeRow)
  get_root_node s = elim (b.node.one (λ r. is_root r.role) s.nodes) [
    | ok r ↦ (ok r, s)
    | err e ↦ (err generic, s)
    | panic ↦ (panic, s)
  ]

  unfoldable pub get_node_by_pubkey : Text → Service Handle (Option NodeRow)
  get_node_by_pubkey pubkey s = elim (b.node.one (λ r. r.pubkey =text pubkey) s.nodes) [
    | ok r ↦ (ok r, s)
    | err e ↦ (err generic, s)
    | panic ↦ (panic, s)
  ]

  -- The request `StopNode`.
  unfoldable pub handle_stop_node : Text → Service Handle (Unit {0})
  unfolding get_node_by_pubkey update_node
  handle_stop_node pubkey = do
    found ← get_node_by_pubkey pubkey
    elim found [
      | none ↦ pure tt
      | some node ↦ (do stop_node pubkey; update_node (record node { status = stopped }))
    ]

  -- The request `StartNode`; `macaroon` is what `get_macaroon_for_node` returns.
  unfoldable pub handle_start_node : Text → Text → Outcome Error Text → Service Handle Text
  unfolding get_node_by_pubkey
  handle_start_node pubkey passphrase macaroon = do
    found ← get_node_by_pubkey pubkey
    elim found [
      | none ↦ lift (err generic)
      | some node ↦ (do m ← lift macaroon; start_node node passphrase; pure m)
    ]

  -- The flags of the response to `GetStatus`: created, running and authenticated.
  unfoldable pub get_status : Text → Service Handle (Bool × (Bool × Bool))
  unfolding get_node_by_pubkey get_root_node
  get_status pubkey = do
    found_root ← get_root_node
    found ← get_node_by_pubkey pubkey
    (λ s. (ok (flags found_root found (lookup pubkey s.node_directory)), s))
    where
      flags : Option NodeRow → Option NodeRow → Option (Option Handle) → Bool × (Bool × Bool)
      flags none found entry = (false, (false, false))
      flags (some r) none entry = (true, (false, false))
      flags (some r) (some n) none = (true, (false, true))
      flags (some r) (some n) (some e) = (true, (true, true))
