-- ===== src/Node/Queries.antt =====
-- senseicore/src/node.rs: what a node looks up and adds up for its requests.
use sensei.Prelude.{
  ℕ, ◌+◌, ◌%◌, ◌^◌, Bool, true, false, Option, none, some, List, [], ◌∷◌, ◌++◌, map, Text, ◌=text◌,
  Outcome, ok, err, panic, find, length, select, if◌then◌else◌,
}
use mathlib.Core.Option
use sensei.Hex.{sanitize_string}
use sensei.State.{Run, ◌>>=◌, pure, lift}
use sensei.Sql.{Table}
use sensei.Paging.{Channel}
use sensei.Listings.{Paginator}
use sensei.Payments.{PaymentRow, Invoice, Answer, PaymentError}
use sensei.Peers.{PeerRow}
use sensei.Wallet.Types.{Stored, TransactionDetails}
use sensei.Wallet.Store
use sensei.Events.{NodeState, close_channel, force_close_channel}
use sensei.Connect.{SocketAddr, Look, await_handshake}
use sensei.Channels.Types.{SenseiEvent, ChannelOpener}
use sensei.Node.Types.{
  Peer, NodeInfo, Utxo, ChannelDetails, to_channel, NodeRequestError, sensei_error, Balance, Ending,
  failed, hangs,
}

-- A node, with what its libraries answer while it handles one request. The wallet's answers come from
-- its tables; `alias` is the announced alias of a peer in the network graph, `graph_channels` says of
-- each channel there whether its two policies are known, and `accepts` whether the channel manager
-- closes the channel.
pub record LightningNode : Type 0 where
  pub id : Text
  pub version : Text
  pub our_node_id : Text
  pub payment : Table PaymentRow
  pub peer : Table PeerRow
  pub payment_pages : Paginator PaymentRow
  pub peer_pages : Paginator PeerRow
  pub like : Text → Text → Bool
  pub show_txid : Text → Text
  pub opener : ChannelOpener
  pub draws : ℕ → ℕ
  pub polls : ℕ → List SenseiEvent
  pub channels : List ChannelDetails
  pub alias : Text → Option Text
  pub graph_channels : List (Bool × Bool)
  pub graph_nodes : ℕ
  pub peer_node_ids : List Text
  pub outbound : Text → SocketAddr → Bool
  pub looks : List Look
  pub get_address : Stored → Outcome Store.Error Text × Stored
  pub get_balance : Stored → Outcome Store.Error ℕ
  pub list_unspent : Stored → Outcome Store.Error (List Utxo)
  pub list_transactions : Stored → Outcome Store.Error (List TransactionDetails)
  pub parse_invoice : Text → Option Invoice
  pub pay_invoice : Invoice → Answer
  pub pay_pubkey : Text → ℕ → Answer
  pub preimage : Text
  pub payment_hash : Text
  pub create_invoice : ℕ → Text → Outcome PaymentError Invoice
  pub sign : Text → Option Text
  pub verify : Text → Text → Bool
  pub accepts : (force : Bool) (channel_id counterparty : Text) → Bool

-- A call to a node.
abbrev pub Serving {ℓ} : Type ℓ → Type ℓ
Serving A = Run NodeState (Ending NodeRequestError) A

-- `?` on an error of one of the libraries.
abbrev pub raised {ℓ} : {E : Type 0} {A : Type ℓ} → NodeRequestError → Outcome E A → Serving A
raised e (ok a) st = (ok a, st)
raised e (err e') st = (err (failed e), st)
raised e panic st = (panic, st)

-- What bdk does on the tables of the wallet.
abbrev pub on_wallet :
    {A : Type 0} → NodeRequestError → (Stored → Outcome Store.Error A × Stored) → Serving A
on_wallet e m st =
    let (r, wallet) = m st.broadcaster.wallet in
    raised e r (record st { broadcaster = record st.broadcaster { wallet = wallet } })

abbrev pub reading :
    {A : Type 0} → (Stored → Outcome Store.Error A) → Stored → Outcome Store.Error A × Stored
reading f wallet = (f wallet, wallet)

-- `u64` addition, in a release build.
abbrev pub add_wrapping : ℕ → ℕ → ℕ
add_wrapping a b = (a + b) % 2 ^ 64

-- One round of the loop over the channels.
unfoldable pub add_channel : Balance → ChannelDetails → Balance
add_channel b channel = record b {
  channel_balance_msats = add_wrapping b.channel_balance_msats channel.balance_msat;
  channel_outbound_capacity_msats =
      add_wrapping b.channel_outbound_capacity_msats channel.outbound_capacity_msat;
  channel_inbound_capacity_msats =
      add_wrapping b.channel_inbound_capacity_msats channel.inbound_capacity_msat;
  usable_channel_outbound_capacity_msats =
      if channel.is_usable
      then add_wrapping b.usable_channel_outbound_capacity_msats channel.outbound_capacity_msat
      else b.usable_channel_outbound_capacity_msats;
  usable_channel_inbound_capacity_msats =
      if channel.is_usable
      then add_wrapping b.usable_channel_inbound_capacity_msats channel.inbound_capacity_msat
      else b.usable_channel_inbound_capacity_msats;
}

unfoldable pub add_channels : Balance → List ChannelDetails → Balance
unfolding add_channel
add_channels b [] = b
add_channels b (channel ∷ channels) = add_channels (add_channel b channel) channels

abbrev pub no_channels : ℕ → Balance
no_channels onchain_balance_sats = record {
  onchain_balance_sats = onchain_balance_sats;
  channel_balance_msats = 0;
  channel_outbound_capacity_msats = 0;
  channel_inbound_capacity_msats = 0;
  usable_channel_outbound_capacity_msats = 0;
  usable_channel_inbound_capacity_msats = 0;
}

unfoldable pub local_balance_msat : List ChannelDetails → ℕ
local_balance_msat [] = 0
local_balance_msat (c ∷ cs) = add_wrapping c.balance_msat (local_balance_msat cs)

abbrev one_if : Bool → ℕ
one_if true = 1
one_if false = 0

unfoldable pub num_known_edge_policies : List (Bool × Bool) → ℕ
num_known_edge_policies [] = 0
num_known_edge_policies ((one_to_two, two_to_one) ∷ rest) =
    add_wrapping (one_if one_to_two + one_if two_to_one) (num_known_edge_policies rest)

module _ (n : LightningNode) where
  -- A channel as it is listed, with the alias of its peer.
  unfoldable pub listed_channel : ChannelDetails → Channel
  unfolding to_channel
  listed_channel chan_info = record (to_channel chan_info) {
    alias = Option.map sanitize_string (n.alias chan_info.counterparty_node_id);
  }

  unfoldable pub get_balance : Serving Balance
  get_balance = do
    onchain_balance_sats ← on_wallet sensei_error (reading n.get_balance)
    pure (add_channels (no_channels onchain_balance_sats) n.channels)

  unfoldable pub get_channel_counterparty : Text → Outcome (Ending NodeRequestError) Text
  get_channel_counterparty channel_id =
      elim (find (λ (c : ChannelDetails). c.channel_id =text channel_id) n.channels) [
        | none ↦ panic
        | some chan ↦ ok chan.counterparty_node_id
      ]

  abbrev asked_to_close : Bool → Text → Text → Serving (Unit {0})
  asked_to_close force channel_id cp_id st = (
    if n.accepts force channel_id cp_id then ok tt else err (failed sensei_error),
    record st {
      calls =
          st.calls
          ++ (if force
              then force_close_channel channel_id cp_id
              else close_channel channel_id cp_id)
            ∷ [];
    },
  )

  unfoldable pub close : Text → Bool → Serving (Unit {0})
  close channel_id force = do
    cp_id ← lift (get_channel_counterparty channel_id)
    asked_to_close force channel_id cp_id

  unfoldable pub node_info : NodeInfo
  node_info = record {
    version = n.version;
    node_pubkey = n.our_node_id;
    num_channels = length n.channels % 2 ^ 32;
    num_usable_channels = length (select (λ (c : ChannelDetails). c.is_usable) n.channels) % 2 ^ 32;
    num_peers = length n.peer_node_ids % 2 ^ 32;
    local_balance_msat = local_balance_msat n.channels;
  }

  unfoldable pub list_peers : List Peer
  list_peers = map (λ pubkey. record { node_pubkey = pubkey }) n.peer_node_ids

  unfoldable pub list_unspent : Serving (List Utxo)
  list_unspent = on_wallet sensei_error (reading n.list_unspent)

  -- Looks at the new connection until the handshake is done. A list of looks that ends before stands for
  -- a wait without an end.
  unfoldable pub connect_to_peer : Text → SocketAddr → Outcome (Ending NodeRequestError) (Unit {0})
  connect_to_peer pubkey addr =
      if n.outbound pubkey addr
      then elim (await_handshake pubkey n.looks) [
        | none ↦ err hangs
        | some done ↦ if done then ok tt else err (failed sensei_error)
      ]
      else err (failed sensei_error)
