-- ===== src/Grpc/Requests.antt =====
-- src/grpc/adaptor.rs: the requests of the messages, one definition for each `From`.
use sensei.Prelude.{ℕ, ◌%◌, ◌^◌, Option, none, map, unwrap_or}
use mathlib.Core.Option
use sensei.Paging
use sensei.Listings
use sensei.Channels.Types
use sensei.Node.Types.{NodeRequest}
use sensei.Grpc.Messages.{PaginationRequest, PaymentsFilter, OpenChannelRequest}
use sensei.Grpc.Calls.{
  StartNodeRequest, StopNodeRequest, GetUnusedAddressRequest, GetBalanceRequest,
  OpenChannelsRequest, PayInvoiceRequest, DecodeInvoiceRequest, KeysendRequest,
  CreateInvoiceRequest, LabelPaymentRequest, DeletePaymentRequest, ConnectPeerRequest,
  ListChannelsRequest, ListPaymentsRequest, CloseChannelRequest, InfoRequest, ListPeersRequest,
  SignMessageRequest, VerifyMessageRequest, ListUnspentRequest, NetworkGraphInfoRequest,
  ListKnownPeersRequest, AddKnownPeerRequest, RemoveKnownPeerRequest,
}

unfoldable pub from_payments_filter : PaymentsFilter → Listings.PaymentsFilter
from_payments_filter filter = record { origin = filter.origin; status = filter.status }

unfoldable pub from_pagination : PaginationRequest → Paging.PaginationRequest
from_pagination pagination = record {
  take = pagination.take;
  page = pagination.page;
  query = pagination.query;
}

-- `unwrap_or_default`: the `Default` of `PaginationRequest`, and that of `PaymentsFilter`.
abbrev pub default_pagination : Paging.PaginationRequest
default_pagination = record { page = 0; take = 10; query = none }

abbrev pub default_filter : Listings.PaymentsFilter
default_filter = record { origin = none; status = none }

abbrev pub pagination_or_default : Option PaginationRequest → Paging.PaginationRequest
pagination_or_default p = unwrap_or default_pagination (Option.map from_pagination p)

unfoldable pub from_start_node : StartNodeRequest → NodeRequest
from_start_node req = NodeRequest.start_node req.passphrase

unfoldable pub from_stop_node : StopNodeRequest → NodeRequest
from_stop_node req = NodeRequest.stop_node

unfoldable pub from_get_unused_address : GetUnusedAddressRequest → NodeRequest
from_get_unused_address req = NodeRequest.get_unused_address

unfoldable pub from_get_balance : GetBalanceRequest → NodeRequest
from_get_balance req = NodeRequest.get_balance

-- `cltv_delta as u16` keeps the lower 16 bits.
unfoldable pub from_open_channel : OpenChannelRequest → Types.OpenChannelRequest
from_open_channel request = record {
  counterparty_pubkey = request.counterparty_pubkey;
  amount_sats = request.amount_sats;
  public = request.public;
  custom_id = request.custom_id;
  push_amount_msats = request.push_amount_msats;
  counterparty_host_port = request.counterparty_host_port;
  forwarding_fee_proportional_millionths = request.forwarding_fee_proportional_millionths;
  forwarding_fee_base_msat = request.forwarding_fee_base_msat;
  cltv_expiry_delta = Option.map (λ (delta : ℕ). delta % 2 ^ 16) request.cltv_expiry_delta;
  max_dust_htlc_exposure_msat = request.max_dust_htlc_exposure_msat;
  force_close_avoidance_max_fee_satoshis = request.force_close_avoidance_max_fee_satoshis;
}

unfoldable pub from_open_channels : OpenChannelsRequest → NodeRequest
from_open_channels req = NodeRequest.open_channels (map from_open_channel req.requests)

unfoldable pub from_pay_invoice : PayInvoiceRequest → NodeRequest
from_pay_invoice req = NodeRequest.send_payment req.invoice

unfoldable pub from_decode_invoice : DecodeInvoiceRequest → NodeRequest
from_decode_invoice req = NodeRequest.decode_invoice req.invoice

unfoldable pub from_keysend : KeysendRequest → NodeRequest
from_keysend req = NodeRequest.keysend req.dest_pubkey req.amt_msat

unfoldable pub from_create_invoice : CreateInvoiceRequest → NodeRequest
from_create_invoice req = NodeRequest.get_invoice req.amt_msat req.description

unfoldable pub from_label_payment : LabelPaymentRequest → NodeRequest
from_label_payment req = NodeRequest.label_payment req.label req.payment_hash

unfoldable pub from_delete_payment : DeletePaymentRequest → NodeRequest
from_delete_payment req = NodeRequest.delete_payment req.payment_hash

unfoldable pub from_connect_peer : ConnectPeerRequest → NodeRequest
from_connect_peer req = NodeRequest.connect_peer req.node_connection_string

unfoldable pub from_list_channels : ListChannelsRequest → NodeRequest
from_list_channels req = NodeRequest.list_channels (pagination_or_default req.pagination)

unfoldable pub from_list_payments : ListPaymentsRequest → NodeRequest
from_list_payments req =
    NodeRequest.list_payments (pagination_or_default req.pagination)
      (unwrap_or default_filter (Option.map from_payments_filter req.filter))

unfoldable pub from_close_channel : CloseChannelRequest → NodeRequest
from_close_channel req = NodeRequest.close_channel req.channel_id req.force

unfoldable pub from_info : InfoRequest → NodeRequest
from_info req = NodeRequest.node_info

unfoldable pub from_list_peers : ListPeersRequest → NodeRequest
from_list_peers req = NodeRequest.list_peers

unfoldable pub from_sign_message : SignMessageRequest → NodeRequest
from_sign_message req = NodeRequest.sign_message req.message

unfoldable pub from_verify_message : VerifyMessageRequest → NodeRequest
from_verify_message req = NodeRequest.verify_message req.message req.signature

unfoldable pub from_list_unspent : ListUnspentRequest → NodeRequest
from_list_unspent req = NodeRequest.list_unspent

unfoldable pub from_network_graph_info : NetworkGraphInfoRequest → NodeRequest
from_network_graph_info req = NodeRequest.network_graph_info

unfoldable pub from_list_known_peers : ListKnownPeersRequest → NodeRequest
from_list_known_peers req = NodeRequest.list_known_peers (pagination_or_default req.pagination)

unfoldable pub from_add_known_peer : AddKnownPeerRequest → NodeRequest
from_add_known_peer req = NodeRequest.add_known_peer req.pubkey req.label req.zero_conf

unfoldable pub from_remove_known_peer : RemoveKnownPeerRequest → NodeRequest
from_remove_known_peer req = NodeRequest.remove_known_peer req.pubkey
