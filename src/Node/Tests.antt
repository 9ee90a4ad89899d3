-- ===== src/Node/Tests.antt =====
-- The theorems about the requests to a node, at a node with one usable and one unusable channel.
use sensei.Prelude.{
  ◌≡◌, ◌*◌, ◌≤◌, refl, true, false, none, some, [], ◌∷◌, ok, err, length, take, drop, select, arith,
}
use sensei.Text.{codes}
use sensei.Sql.{list_table}
use sensei.Wallet.Tests.Memory.{funded}
use sensei.Listings.{Paginator}
use sensei.Payments.{unsent, no_invoice, same_payment}
use sensei.Peers.{same_peer}
use sensei.Events.{NodeState}
use sensei.Channels.Tests.{opener, prompt, draws}
use sensei.Node.Types.{NodeRequest, NodeResponse, ChannelDetails, Balance}
use sensei.Node.Queries.{LightningNode, get_balance, add_channel, add_channels}
use sensei.Node.Call.{call, zeros}
use sensei.Node.Answers.{Answers, call-Answers}
use sensei.Node.Balance.{call-get_balance}

abbrev pages : {Row : Type 0} → Paginator Row
pages = record {
  fetch_page =
      λ p page_size page rows. ok (take page_size (drop (page * page_size) (select p rows)));
  num_items = λ p page_size rows. ok (length (select p rows));
}

abbrev one_channel : ChannelDetails
one_channel = record {
  channel_id = zeros 32;
  funding_txo = some (codes "txid", 1);
  short_channel_id = none;
  channel_value_satoshis = 100000;
  balance_msat = 70000000;
  unspendable_punishment_reserve = none;
  user_channel_id = 7;
  outbound_capacity_msat = 60000000;
  inbound_capacity_msat = 30000000;
  confirmations_required = none;
  force_close_spend_delay = none;
  is_outbound = true;
  is_channel_ready = true;
  is_usable = true;
  is_public = false;
  counterparty_node_id = codes "peer";
}

abbrev pub node : LightningNode
node = record {
  id = codes "node";
  version = codes "0.1";
  our_node_id = codes "02a";
  payment = list_table same_payment true;
  peer = list_table same_peer true;
  payment_pages = pages;
  peer_pages = pages;
  like = λ query s. true;
  show_txid = λ txid. txid;
  opener = opener;
  draws = draws;
  polls = prompt;
  channels =
      one_channel ∷ (record one_channel { channel_id = codes "other"; is_usable = false }) ∷ [];
  alias = λ key. none;
  graph_channels = [];
  graph_nodes = 0;
  peer_node_ids = [];
  outbound = λ key addr. false;
  looks = [];
  get_address = λ st. (ok (codes "address"), st);
  get_balance = λ st. ok 5000;
  list_unspent = λ st. ok [];
  list_transactions = λ st. ok [];
  parse_invoice = λ text. none;
  pay_invoice = λ invoice. unsent;
  pay_pubkey = λ key amount. unsent;
  preimage = codes "preimage";
  payment_hash = codes "hash";
  create_invoice = λ amount description. err no_invoice;
  sign = λ message. some (codes "signature");
  verify = λ message signature. true;
  accepts = λ force id key. true;
}

abbrev pub idle : NodeState
idle = record {
  payments = [];
  peers = [];
  calls = [];
  sent = [];
  receivers = true;
  broadcaster = record { debounce = []; broadcasts = []; events = []; wallet = funded };
}

abbrev sums : Balance
sums = record {
  onchain_balance_sats = 5000;
  channel_balance_msats = 140000000;
  channel_outbound_capacity_msats = 120000000;
  channel_inbound_capacity_msats = 60000000;
  usable_channel_outbound_capacity_msats = 60000000;
  usable_channel_inbound_capacity_msats = 30000000;
}

call-Answers_example : Answers NodeRequest.get_balance (NodeResponse.balance sums)
unfolding call get_balance add_channels add_channel
call-Answers_example =
    call-Answers node idle idle (NodeResponse.balance sums) NodeRequest.get_balance refl

call-get_balance_example :
    (call node NodeRequest.get_balance idle ≡ (ok (NodeResponse.balance sums), idle))
    × ((60000000 ≤ 120000000) × (30000000 ≤ 60000000))
call-get_balance_example =
    call-get_balance node idle 5000 refl (omega arith) (omega arith) (omega arith)
