-- ===== src/Transport/Tests/Running.antt =====
-- A service over tables in memory, with one running node and one macaroon.
use sensei.Prelude.{Text, ◌=text◌, false, true, none, some, [], ◌∷◌, ok}
use sensei.Text.{codes}
use sensei.Sql.{list_table}
use sensei.Admin.{Backend, NodeStatus, NodeRow, MacaroonRow, SenseiConfig, SeedRow, default}
use sensei.Admin.Directory.{same_id}
use sensei.Events.{NodeState}
use sensei.Node.Queries.{LightningNode}
use sensei.Node.Call.{call}
use sensei.Node.Tests.{node, idle}
use sensei.Transport.{Nodes, Server, MacaroonSession}
use sensei.Transport.Refused.{same_macaroon}

abbrev config : SenseiConfig
config = record {
  api_host = codes "0.0.0.0";
  network = codes "regtest";
  port_range_min = 10000;
  port_range_max = 10003;
}

abbrev backend : Backend LightningNode
backend = record {
  config = config;
  node = list_table same_id true;
  seed = list_table (λ (a b : SeedRow). b.node_id =text a.node_id) true;
  macaroon = list_table same_macaroon true;
  new_node = λ row passphrase. ok node;
}

abbrev pub alice : NodeRow
alice = record {
  id = codes "a";
  role = default;
  username = codes "alice";
  alias = codes "alice";
  network = codes "regtest";
  listen_addr = codes "127.0.0.1";
  listen_port = 10001;
  pubkey = codes "02a";
  status = NodeStatus.running;
}

abbrev pub session : MacaroonSession
session = record { id = codes "m"; pubkey = codes "02a" }

-- Every macaroon is that of the node.
abbrev pub nodes : Nodes LightningNode Text NodeState
nodes = record {
  backend = backend;
  deserialize = λ bytes. some bytes;
  session = λ macaroon. some session;
  verifies = λ handle macaroon. true;
  serve = λ handle request. call handle request;
  macaroon = λ pubkey passphrase. ok (codes "ab");
}

abbrev pub key : MacaroonRow
key = record { id = codes "m"; node_id = codes "a"; encrypted_macaroon = codes "macaroon" }

abbrev pub running : Server LightningNode NodeState
running = record {
  service = record {
    node_directory = (codes "02a", some node) ∷ [];
    available_ports = [];
    graph = none;
    nodes = alice ∷ [];
    seeds = [];
    macaroons = key ∷ [];
  };
  world = idle;
  held = false;
}
