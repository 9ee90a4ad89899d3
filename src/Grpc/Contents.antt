-- ===== src/Grpc/Contents.antt =====
-- src/grpc/adaptor.rs and src/grpc/mod.rs: the messages that a response holds.
use sensei.Prelude.{some, map}
use mathlib.Core.Option
use sensei.Paging
use sensei.Payments.{
  PaymentRow, LocalInvoice, LocalInvoiceFeatures, LocalRouteHint, LocalRouteHintHop,
}
use sensei.Payments
use sensei.Peers.{PeerRow}
use sensei.Channels.Types as Opening
use sensei.Node.Types as Node
use sensei.Grpc.Messages.{
  PaginationResponse, Channel, Payment, Info, Peer, Utxo, KnownPeer, OpenChannelRequest,
  OpenChannelResult, RoutingFees, RouteHintHop, RouteHint, Features, Invoice,
}

unfoldable pub pagination_message : Paging.PaginationResponse → PaginationResponse
pagination_message pagination = record { has_more = pagination.has_more; total = pagination.total }

unfoldable pub channel_message : Paging.Channel → Channel
channel_message channel = record {
  channel_id = channel.channel_id;
  funding_txid = channel.funding_txid;
  funding_tx_index = channel.funding_tx_index;
  short_channel_id = channel.short_channel_id;
  channel_value_satoshis = channel.channel_value_satoshis;
  balance_msat = channel.balance_msat;
  unspendable_punishment_reserve = channel.unspendable_punishment_reserve;
  user_channel_id = channel.user_channel_id;
  outbound_capacity_msat = channel.outbound_capacity_msat;
  inbound_capacity_msat = channel.inbound_capacity_msat;
  confirmations_required = channel.confirmations_required;
  force_close_spend_delay = channel.force_close_spend_delay;
  is_outbound = channel.is_outbound;
  is_channel_ready = channel.is_channel_ready;
  is_usable = channel.is_usable;
  is_public = channel.is_public;
  counterparty_pubkey = channel.counterparty_pubkey;
  alias = channel.alias;
}

unfoldable pub payment_message : PaymentRow → Payment
payment_message payment = record {
  hash = payment.payment_hash;
  preimage = payment.preimage;
  secret = payment.secret;
  status = payment.status;
  amt_msat = payment.amt_msat;
  fee_paid_msat = payment.fee_paid_msat;
  origin = payment.origin;
  label = payment.label;
  invoice = payment.invoice;
}

unfoldable pub info_message : Node.NodeInfo → Info
info_message info = record {
  version = info.version;
  node_pubkey = info.node_pubkey;
  num_channels = info.num_channels;
  num_usable_channels = info.num_usable_channels;
  num_peers = info.num_peers;
}

unfoldable pub peer_message : Node.Peer → Peer
peer_message peer = record { node_pubkey = peer.node_pubkey }

unfoldable pub utxo_message : Node.Utxo → Utxo
utxo_message utxo = record {
  amount_sat = utxo.amount_sat;
  spk = utxo.spk;
  txid = utxo.txid;
  output_index = utxo.output_index;
}

unfoldable pub known_peer_message : PeerRow → KnownPeer
known_peer_message peer = record {
  pubkey = peer.pubkey;
  label = peer.label;
  zero_conf = peer.zero_conf;
}

-- A `u16` always fits the `u32` of the message.
unfoldable pub open_channel_message : Opening.OpenChannelRequest → OpenChannelRequest
open_channel_message request = record {
  counterparty_pubkey = request.counterparty_pubkey;
  amount_sats = request.amount_sats;
  public = request.public;
  push_amount_msats = request.push_amount_msats;
  custom_id = request.custom_id;
  counterparty_host_port = request.counterparty_host_port;
  forwarding_fee_proportional_millionths = request.forwarding_fee_proportional_millionths;
  forwarding_fee_base_msat = request.forwarding_fee_base_msat;
  cltv_expiry_delta = request.cltv_expiry_delta;
  max_dust_htlc_exposure_msat = request.max_dust_htlc_exposure_msat;
  force_close_avoidance_max_fee_satoshis = request.force_close_avoidance_max_fee_satoshis;
}

unfoldable pub open_channel_result_message : Node.OpenChannelResult → OpenChannelResult
open_channel_result_message result = record {
  error = result.error;
  error_message = result.error_message;
  temp_channel_id = result.temp_channel_id;
}

unfoldable pub fees_message : Payments.RoutingFees → RoutingFees
fees_message fees = record {
  base_msat = fees.base_msat;
  proportional_millionths = fees.proportional_millionths;
}

unfoldable pub hop_message : LocalRouteHintHop → RouteHintHop
hop_message hop = record {
  src_node_id = hop.src_node_id;
  short_channel_id = hop.short_channel_id;
  fees = some (fees_message hop.fees);
  cltv_expiry_delta = hop.cltv_expiry_delta;
  htlc_minimum_msat = hop.htlc_minimum_msat;
  htlc_maximum_msat = hop.htlc_maximum_msat;
}

unfoldable pub hint_message : LocalRouteHint → RouteHint
hint_message hint = record { hops = map hop_message hint.hops }

unfoldable pub features_message : LocalInvoiceFeatures → Features
features_message features = record {
  variable_length_onion = features.variable_length_onion;
  payment_secret = features.payment_secret;
  basic_mpp = features.basic_mpp;
}

unfoldable pub invoice_message : LocalInvoice → Invoice
invoice_message invoice = record {
  payment_hash = invoice.payment_hash;
  currency = invoice.currency;
  amount = invoice.amount;
  description = invoice.description;
  expiry = invoice.expiry;
  timestamp = invoice.timestamp;
  min_final_cltv_expiry = invoice.min_final_cltv_expiry;
  route_hints = map hint_message invoice.route_hints;
  features = Option.map features_message invoice.features;
  payee_pub_key = invoice.payee_pub_key;
}
