-- ===== src/Admin/Tests.antt =====
-- A service over tables in memory, whose nodes are handled by their ports.
use sensei.Prelude.{
  List, ℕ, ◌≡◌, refl, Bool, true, none, some, [], ◌∷◌, Text, ◌=text◌, Outcome, ok, err,
  if◌then◌else◌,
}
use sensei.Text.{codes}
use sensei.Maps.{lookup}
use sensei.Sql.{list_table}
use sensei.Sql.Laws.{list_table-IsTable}
use sensei.Admin.{
  AdminService, Backend, NodeRow, SeedRow, MacaroonRow, SenseiConfig, Generated, Error, generic,
  default, stopped, create_node, start_node,
}
use sensei.Admin.{
  root, build_node, listen_port_of, insert_seed, insert_macaroon, insert_node, enter_handle,
  update_node,
}
use sensei.Admin.Requests.{handle_create_admin, root_token}
use sensei.Admin.Admits.{handle_create_admin-admits}
use sensei.Auth.{AccessToken, is_valid_token}
use sensei.Auth.Tokens
use sensei.Auth.Create.{create_access_token, create_root_access_token}
use sensei.Hex.{hex_str}
use sensei.Sql.{Table}
use sensei.Admin.Batch.{Batches, batch_create_nodes}
use sensei.Admin.Batches.{batch_create_nodes-AreFree}
use sensei.Auth.{NodeCreateInfo}
use sensei.Prelude.{◌++◌, arith}
use sensei.Admin.Ports.{AreFree, create_node-AreFree}
use sensei.Admin.Directory.{same_id, start_node-failed}

abbrev config : SenseiConfig
config = record {
  api_host = codes "0.0.0.0";
  network = codes "regtest";
  port_range_min = 10000;
  port_range_max = 10003;
}

abbrev same_seed : SeedRow → SeedRow → Bool
same_seed a b = b.node_id =text a.node_id

abbrev same_macaroon : MacaroonRow → MacaroonRow → Bool
same_macaroon a b = b.id =text a.id

-- A node starts with the passphrase `p` only.
abbrev start_with : NodeRow → Text → Outcome Error ℕ
start_with node passphrase = if passphrase =text codes "p" then ok node.listen_port else err generic

abbrev backend : Backend ℕ
backend = record {
  config = config;
  node = list_table same_id true;
  seed = list_table same_seed true;
  macaroon = list_table same_macaroon true;
  new_node = start_with;
}

abbrev alice : NodeRow
alice = record {
  id = codes "a";
  role = default;
  username = codes "alice";
  alias = codes "alice";
  network = codes "regtest";
  listen_addr = codes "127.0.0.1";
  listen_port = 10001;
  pubkey = codes "02a";
  status = stopped;
}

abbrev service : AdminService ℕ
service = record {
  node_directory = [];
  available_ports = 10000 ∷ 10002 ∷ [];
  graph = none;
  nodes = alice ∷ [];
  seeds = [];
  macaroons = [];
}

abbrev made : Generated
made = record {
  node_id = codes "b";
  encrypted_seed = codes "seed";
  pubkey = codes "02b";
  macaroon_id = codes "m";
  encrypted_macaroon = codes "macaroon";
}

create_node-AreFree_example :
    let s' = (create_node backend (codes "bob") (codes "bob") default (ok made) service).1 in
    AreFree s'.nodes s'.available_ports
create_node-AreFree_example =
    create_node-AreFree backend (list_table-IsTable same_id true) (codes "bob") (codes "bob")
      (ok made) service (unfold AreFree in (refl, (refl, (refl, (refl, tt)))))

start_node-failed_example :
    let (r, s') = start_node backend alice (codes "x") service in
    (r ≡ err generic)
    × (start_node backend alice (codes "p") s' ≡ (ok tt, s'))
    × (lookup (codes "02a") s'.node_directory ≡ some none)
unfolding lookup ◌=text◌
start_node-failed_example =
    start_node-failed backend alice (codes "x") (codes "p") service generic refl refl

abbrev tokens : Table AccessToken
tokens = list_table Tokens.same_id true

abbrev drawn : Generated
drawn = record {
  node_id = codes "r";
  encrypted_seed = codes "s";
  pubkey = codes "02r";
  macaroon_id = codes "m";
  encrypted_macaroon = codes "x";
}

abbrev created : Outcome Error (NodeRow × (Text × Text)) × (AdminService ℕ × List AccessToken)
created =
    handle_create_admin backend tokens (codes "root") (codes "root") (codes "p") true (ok drawn)
      (ok (codes "y")) (171 ∷ []) (codes "1") (service, [])

abbrev root_node : NodeRow
root_node = record {
  id = codes "r";
  role = root;
  username = codes "root";
  alias = codes "root";
  network = codes "regtest";
  listen_addr = codes "0.0.0.0";
  listen_port = 9735;
  pubkey = codes "02r";
  status = stopped;
}

handle_create_admin-admits_example :
    is_valid_token tokens 40 (codes "ab") (some (codes "nodes/list")) created.1.1
    ≡ (ok true, created.1.1)
unfolding ◌=text◌ handle_create_admin create_node build_node listen_port_of insert_seed
    insert_macaroon insert_node start_node enter_handle update_node root_token
    create_root_access_token create_access_token hex_str lookup
handle_create_admin-admits_example =
    handle_create_admin-admits backend tokens (list_table-IsTable Tokens.same_id true)
      (codes "root") (codes "root") (codes "p") true (ok drawn) (ok (codes "y")) (171 ∷ [])
      (codes "1") service created.1.0 [] created.1.1 root_node (codes "y") (codes "ab") refl refl
      refl 40 (some (codes "nodes/list"))

abbrev many : Batches
many = record {
  node = λ more rows. ok (rows ++ more);
  seed = λ more rows. ok (rows ++ more);
  macaroon = λ more rows. ok (rows ++ more);
}

many-appends : (more rows all : List NodeRow) → many.node more rows ≡ ok all → all ≡ rows ++ more
many-appends more rows all e = ground (arith, e)

abbrev bob : NodeCreateInfo
bob = record { username = codes "bob"; alias = codes "bob"; passphrase = codes "p"; start = true }

batch_create_nodes-AreFree_example :
    let s' =
      (batch_create_nodes backend many ((bob, ok made) ∷ (bob, err generic) ∷ []) service).1 in
    AreFree s'.nodes s'.available_ports
batch_create_nodes-AreFree_example =
    batch_create_nodes-AreFree backend many many-appends (list_table-IsTable same_id true)
      ((bob, ok made) ∷ (bob, err generic) ∷ []) service
      (unfold AreFree in (refl, (refl, (refl, (refl, tt)))))
