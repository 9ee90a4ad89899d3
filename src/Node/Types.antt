-- ===== src/Node/Types.antt =====
-- The requests and responses of a node: senseicore/src/services/node.rs.
use sensei.Prelude.{ℕ, Bool, Option, none, List, Text}
use mathlib.Core.Option
use sensei.Hex.{hex_str}
use sensei.Paging.{Channel, PaginationRequest, PaginationResponse}
use sensei.Listings.{PaymentsFilter}
use sensei.Payments.{PaymentRow, LocalInvoice}
use sensei.Peers.{PeerRow}
use sensei.Wallet.Types.{TransactionDetails}
use sensei.Channels.Types.{OpenChannelRequest}

pub record Peer : Type 0 where
  pub node_pubkey : Text

pub record NodeInfo : Type 0 where
  pub version : Text
  pub node_pubkey : Text
  pub num_channels : ℕ
  pub num_usable_channels : ℕ
  pub num_peers : ℕ
  pub local_balance_msat : ℕ

pub record OpenChannelResult : Type 0 where
  pub error : Bool
  pub error_message : Option Text
  pub temp_channel_id : Option Text

pub record Utxo : Type 0 where
  pub amount_sat : ℕ
  pub spk : Text
  pub txid : Text
  pub output_index : ℕ

-- The fields of the library's `ChannelDetails` that are read: the id as bytes, the funding output as
-- its txid in text and its index, the counterparty as the text of its key.
pub record ChannelDetails : Type 0 where
  pub channel_id : Text
  pub funding_txo : Option (Text × ℕ)
  pub short_channel_id : Option ℕ
  pub channel_value_satoshis : ℕ
  pub balance_msat : ℕ
  pub unspendable_punishment_reserve : Option ℕ
  pub user_channel_id : ℕ
  pub outbound_capacity_msat : ℕ
  pub inbound_capacity_msat : ℕ
  pub confirmations_required : Option ℕ
  pub force_close_spend_delay : Option ℕ
  pub is_outbound : Bool
  pub is_channel_ready : Bool
  pub is_usable : Bool
  pub is_public : Bool
  pub counterparty_node_id : Text

-- `From<ChannelDetails>`. The two casts widen `u16` to `u32`.
unfoldable pub to_channel : ChannelDetails → Channel
to_channel channel_detail = record {
  channel_id = hex_str channel_detail.channel_id;
  funding_txid = Option.map (λ txo. txo.0) channel_detail.funding_txo;
  funding_tx_index = Option.map (λ txo. txo.1) channel_detail.funding_txo;
  short_channel_id = channel_detail.short_channel_id;
  channel_value_satoshis = channel_detail.channel_value_satoshis;
  balance_msat = channel_detail.balance_msat;
  unspendable_punishment_reserve = channel_detail.unspendable_punishment_reserve;
  user_channel_id = channel_detail.user_channel_id;
  outbound_capacity_msat = channel_detail.outbound_capacity_msat;
  inbound_capacity_msat = channel_detail.inbound_capacity_msat;
  confirmations_required = channel_detail.confirmations_required;
  force_close_spend_delay = channel_detail.force_close_spend_delay;
  is_outbound = channel_detail.is_outbound;
  is_channel_ready = channel_detail.is_channel_ready;
  is_usable = channel_detail.is_usable;
  is_public = channel_detail.is_public;
  counterparty_pubkey = channel_detail.counterparty_node_id;
  alias = none;
}

pub data NodeRequest : Type 0 where
  start_node : (passphrase : Text) → NodeRequest
  stop_node get_unused_address get_balance : NodeRequest
  open_channels : List OpenChannelRequest → NodeRequest
  send_payment : (invoice : Text) → NodeRequest
  keysend : (dest_pubkey : Text) (amt_msat : ℕ) → NodeRequest
  decode_invoice : (invoice : Text) → NodeRequest
  get_invoice : (amt_msat : ℕ) (description : Text) → NodeRequest
  label_payment : (label payment_hash : Text) → NodeRequest
  delete_payment : (payment_hash : Text) → NodeRequest
  connect_peer : (node_connection_string : Text) → NodeRequest
  list_channels : PaginationRequest → NodeRequest
  list_payments : PaginationRequest → PaymentsFilter → NodeRequest
  list_transactions : PaginationRequest → NodeRequest
  close_channel : (channel_id : Text) (force : Bool) → NodeRequest
  node_info list_peers : NodeRequest
  sign_message : (message : Text) → NodeRequest
  verify_message : (message signature : Text) → NodeRequest
  list_unspent network_graph_info : NodeRequest
  list_known_peers : PaginationRequest → NodeRequest
  add_known_peer : (pubkey label : Text) (zero_conf : Bool) → NodeRequest
  remove_known_peer : (pubkey : Text) → NodeRequest

-- `NodeRequestError`, without its texts.
pub data NodeRequestError : Type 0 where
  sensei_error bdk_error io_error : NodeRequestError

-- The six amounts of a balance.
pub record Balance : Type 0 where
  pub onchain_balance_sats : ℕ
  pub channel_balance_msats : ℕ
  pub channel_outbound_capacity_msats : ℕ
  pub channel_inbound_capacity_msats : ℕ
  pub usable_channel_outbound_capacity_msats : ℕ
  pub usable_channel_inbound_capacity_msats : ℕ

-- `NodeResponse`. A response to a listing carries the page and its `PaginationResponse`.
pub data NodeResponse : Type 0 where
  started stopped : NodeResponse
  unused_address : (address : Text) → NodeResponse
  balance : Balance → NodeResponse
  opened_channels : List OpenChannelRequest → List OpenChannelResult → NodeResponse
  sent_payment : NodeResponse
  decoded_invoice : LocalInvoice → NodeResponse
  sent_keysend : NodeResponse
  invoice : Text → NodeResponse
  labelled_payment deleted_payment connected_peer : NodeResponse
  channels : List Channel → PaginationResponse → NodeResponse
  payments : List PaymentRow → PaginationResponse → NodeResponse
  transactions : List TransactionDetails → PaginationResponse → NodeResponse
  closed_channel : NodeResponse
  info : NodeInfo → NodeResponse
  peers : List Peer → NodeResponse
  signature : Text → NodeResponse
  verified : (valid : Bool) (pubkey : Text) → NodeResponse
  unspent : List Utxo → NodeResponse
  graph_info : (num_channels num_nodes num_known_edge_policies : ℕ) → NodeResponse
  known_peers : List PeerRow → PaginationResponse → NodeResponse
  added_known_peer removed_known_peer : NodeResponse
  error : NodeRequestError → NodeResponse

-- How a request can end other than in a response or a panic: with an error, or not at all.
pub data Ending (E : Type 0) : Type 0 where
  failed : E → Ending E
  hangs : Ending E

-- `map_err`
abbrev pub map_ending : {E F : Type 0} → (E → F) → Ending E → Ending F
map_ending f (failed e) = failed (f e)
map_ending f hangs = hangs
