-- ===== src/Grpc/Replies.antt =====
-- src/grpc/adaptor.rs: the messages of the responses, one definition for each `TryFrom`. A response
-- of another kind gives the error `impossible`.
use sensei.Prelude.{Outcome, ok, err, some, map}
use sensei.Node.Types.{NodeResponse}
use sensei.Grpc.Contents.{
  pagination_message, channel_message, payment_message, info_message, peer_message, utxo_message,
  known_peer_message, open_channel_message, open_channel_result_message, invoice_message,
}
use sensei.Grpc.Calls.{
  StartNodeResponse, StopNodeResponse, GetUnusedAddressResponse, GetBalanceResponse,
  OpenChannelsResponse, PayInvoiceResponse, DecodeInvoiceResponse, KeysendResponse,
  CreateInvoiceResponse, LabelPaymentResponse, DeletePaymentResponse, ConnectPeerResponse,
  ListChannelsResponse, ListPaymentsResponse, CloseChannelResponse, InfoResponse, ListPeersResponse,
  SignMessageResponse, VerifyMessageResponse, ListUnspentResponse, NetworkGraphInfoResponse,
  ListKnownPeersResponse, AddKnownPeerResponse, RemoveKnownPeerResponse,
}

pub data Impossible : Type 0 where
  impossible : Impossible

abbrev pub Reply : Type 0 → Type 0
Reply A = Outcome Impossible A

unfoldable pub to_start_node : NodeResponse → Reply StartNodeResponse
to_start_node NodeResponse.started = ok tt
to_start_node response = err impossible

unfoldable pub to_stop_node : NodeResponse → Reply StopNodeResponse
to_stop_node NodeResponse.stopped = ok tt
to_stop_node response = err impossible

unfoldable pub to_get_unused_address : NodeResponse → Reply GetUnusedAddressResponse
to_get_unused_address (NodeResponse.unused_address address) = ok (record { address = address })
to_get_unused_address response = err impossible

unfoldable pub to_get_balance : NodeResponse → Reply GetBalanceResponse
to_get_balance (NodeResponse.balance b) = ok (record {
  onchain_balance_sats = b.onchain_balance_sats;
  channel_balance_msats = b.channel_balance_msats;
  channel_outbound_capacity_msats = b.channel_outbound_capacity_msats;
  channel_inbound_capacity_msats = b.channel_inbound_capacity_msats;
  usable_channel_outbound_capacity_msats = b.usable_channel_outbound_capacity_msats;
  usable_channel_inbound_capacity_msats = b.usable_channel_inbound_capacity_msats;
})
to_get_balance response = err impossible

unfoldable pub to_open_channels : NodeResponse → Reply OpenChannelsResponse
to_open_channels (NodeResponse.opened_channels requests results) = ok (record {
  requests = map open_channel_message requests;
  results = map open_channel_result_message results;
})
to_open_channels response = err impossible

unfoldable pub to_pay_invoice : NodeResponse → Reply PayInvoiceResponse
to_pay_invoice NodeResponse.sent_payment = ok tt
to_pay_invoice response = err impossible

unfoldable pub to_decode_invoice : NodeResponse → Reply DecodeInvoiceResponse
to_decode_invoice (NodeResponse.decoded_invoice i) =
    ok (record { invoice = some (invoice_message i) })
to_decode_invoice response = err impossible

unfoldable pub to_keysend : NodeResponse → Reply KeysendResponse
to_keysend NodeResponse.sent_keysend = ok tt
to_keysend response = err impossible

unfoldable pub to_create_invoice : NodeResponse → Reply CreateInvoiceResponse
to_create_invoice (NodeResponse.invoice i) = ok (record { invoice = i })
to_create_invoice response = err impossible

unfoldable pub to_label_payment : NodeResponse → Reply LabelPaymentResponse
to_label_payment NodeResponse.labelled_payment = ok tt
to_label_payment response = err impossible

unfoldable pub to_delete_payment : NodeResponse → Reply DeletePaymentResponse
to_delete_payment NodeResponse.deleted_payment = ok tt
to_delete_payment response = err impossible

unfoldable pub to_connect_peer : NodeResponse → Reply ConnectPeerResponse
to_connect_peer NodeResponse.connected_peer = ok tt
to_connect_peer response = err impossible

unfoldable pub to_list_channels : NodeResponse → Reply ListChannelsResponse
to_list_channels (NodeResponse.channels cs p) =
    ok (record { channels = map channel_message cs; pagination = some (pagination_message p) })
to_list_channels response = err impossible

unfoldable pub to_list_payments : NodeResponse → Reply ListPaymentsResponse
to_list_payments (NodeResponse.payments ps p) =
    ok (record { payments = map payment_message ps; pagination = some (pagination_message p) })
to_list_payments response = err impossible

unfoldable pub to_close_channel : NodeResponse → Reply CloseChannelResponse
to_close_channel NodeResponse.closed_channel = ok tt
to_close_channel response = err impossible

unfoldable pub to_info : NodeResponse → Reply InfoResponse
to_info (NodeResponse.info i) = ok (record { node_info = some (info_message i) })
to_info response = err impossible

unfoldable pub to_list_peers : NodeResponse → Reply ListPeersResponse
to_list_peers (NodeResponse.peers ps) = ok (record { peers = map peer_message ps })
to_list_peers response = err impossible

unfoldable pub to_sign_message : NodeResponse → Reply SignMessageResponse
to_sign_message (NodeResponse.signature s) = ok (record { signature = s })
to_sign_message response = err impossible

unfoldable pub to_verify_message : NodeResponse → Reply VerifyMessageResponse
to_verify_message (NodeResponse.verified valid pubkey) =
    ok (record { valid = valid; pubkey = pubkey })
to_verify_message response = err impossible

unfoldable pub to_list_unspent : NodeResponse → Reply ListUnspentResponse
to_list_unspent (NodeResponse.unspent us) = ok (record { utxos = map utxo_message us })
to_list_unspent response = err impossible

unfoldable pub to_network_graph_info : NodeResponse → Reply NetworkGraphInfoResponse
to_network_graph_info (NodeResponse.graph_info cs ns ps) =
    ok (record { num_channels = cs; num_nodes = ns; num_known_edge_policies = ps })
to_network_graph_info response = err impossible

unfoldable pub to_list_known_peers : NodeResponse → Reply ListKnownPeersResponse
to_list_known_peers (NodeResponse.known_peers ps p) =
    ok (record { peers = map known_peer_message ps; pagination = some (pagination_message p) })
to_list_known_peers response = err impossible

unfoldable pub to_add_known_peer : NodeResponse → Reply AddKnownPeerResponse
to_add_known_peer NodeResponse.added_known_peer = ok tt
to_add_known_peer response = err impossible

unfoldable pub to_remove_known_peer : NodeResponse → Reply RemoveKnownPeerResponse
to_remove_known_peer NodeResponse.removed_known_peer = ok tt
to_remove_known_peer response = err impossible
