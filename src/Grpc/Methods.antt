-- ===== src/Grpc/Methods.antt =====
-- The methods of the service `Node` (src/proto/sensei.proto, src/grpc/node.rs), with the types of their
-- messages and the conversions that `into` and `try_into` stand for in each (src/grpc/adaptor.rs).
use sensei.Node.Types.{NodeRequest, NodeResponse}
use sensei.Grpc.Calls
use sensei.Grpc.Requests
use sensei.Grpc.Replies
use sensei.Grpc.Replies.{Reply}

pub data Method : Type 0 where
  start_node : Method
  stop_node : Method
  get_unused_address : Method
  get_balance : Method
  open_channels : Method
  pay_invoice : Method
  decode_invoice : Method
  keysend : Method
  create_invoice : Method
  label_payment : Method
  delete_payment : Method
  connect_peer : Method
  list_channels : Method
  list_payments : Method
  close_channel : Method
  info : Method
  list_peers : Method
  sign_message : Method
  verify_message : Method
  list_unspent : Method
  network_graph_info : Method
  list_known_peers : Method
  add_known_peer : Method
  remove_known_peer : Method

abbrev pub Request : Method → Type 0
Request Method.start_node = Calls.StartNodeRequest
Request Method.stop_node = Calls.StopNodeRequest
Request Method.get_unused_address = Calls.GetUnusedAddressRequest
Request Method.get_balance = Calls.GetBalanceRequest
Request Method.open_channels = Calls.OpenChannelsRequest
Request Method.pay_invoice = Calls.PayInvoiceRequest
Request Method.decode_invoice = Calls.DecodeInvoiceRequest
Request Method.keysend = Calls.KeysendRequest
Request Method.create_invoice = Calls.CreateInvoiceRequest
Request Method.label_payment = Calls.LabelPaymentRequest
Request Method.delete_payment = Calls.DeletePaymentRequest
Request Method.connect_peer = Calls.ConnectPeerRequest
Request Method.list_channels = Calls.ListChannelsRequest
Request Method.list_payments = Calls.ListPaymentsRequest
Request Method.close_channel = Calls.CloseChannelRequest
Request Method.info = Calls.InfoRequest
Request Method.list_peers = Calls.ListPeersRequest
Request Method.sign_message = Calls.SignMessageRequest
Request Method.verify_message = Calls.VerifyMessageRequest
Request Method.list_unspent = Calls.ListUnspentRequest
Request Method.network_graph_info = Calls.NetworkGraphInfoRequest
Request Method.list_known_peers = Calls.ListKnownPeersRequest
Request Method.add_known_peer = Calls.AddKnownPeerRequest
Request Method.remove_known_peer = Calls.RemoveKnownPeerRequest

abbrev pub Response : Method → Type 0
Response Method.start_node = Calls.StartNodeResponse
Response Method.stop_node = Calls.StopNodeResponse
Response Method.get_unused_address = Calls.GetUnusedAddressResponse
Response Method.get_balance = Calls.GetBalanceResponse
Response Method.open_channels = Calls.OpenChannelsResponse
Response Method.pay_invoice = Calls.PayInvoiceResponse
Response Method.decode_invoice = Calls.DecodeInvoiceResponse
Response Method.keysend = Calls.KeysendResponse
Response Method.create_invoice = Calls.CreateInvoiceResponse
Response Method.label_payment = Calls.LabelPaymentResponse
Response Method.delete_payment = Calls.DeletePaymentResponse
Response Method.connect_peer = Calls.ConnectPeerResponse
Response Method.list_channels = Calls.ListChannelsResponse
Response Method.list_payments = Calls.ListPaymentsResponse
Response Method.close_channel = Calls.CloseChannelResponse
Response Method.info = Calls.InfoResponse
Response Method.list_peers = Calls.ListPeersResponse
Response Method.sign_message = Calls.SignMessageResponse
Response Method.verify_message = Calls.VerifyMessageResponse
Response Method.list_unspent = Calls.ListUnspentResponse
Response Method.network_graph_info = Calls.NetworkGraphInfoResponse
Response Method.list_known_peers = Calls.ListKnownPeersResponse
Response Method.add_known_peer = Calls.AddKnownPeerResponse
Response Method.remove_known_peer = Calls.RemoveKnownPeerResponse

-- `into`
abbrev pub into : (m : Method) → Request m → NodeRequest
into Method.start_node = Requests.from_start_node
into Method.stop_node = Requests.from_stop_node
into Method.get_unused_address = Requests.from_get_unused_address
into Method.get_balance = Requests.from_get_balance
into Method.open_channels = Requests.from_open_channels
into Method.pay_invoice = Requests.from_pay_invoice
into Method.decode_invoice = Requests.from_decode_invoice
into Method.keysend = Requests.from_keysend
into Method.create_invoice = Requests.from_create_invoice
into Method.label_payment = Requests.from_label_payment
into Method.delete_payment = Requests.from_delete_payment
into Method.connect_peer = Requests.from_connect_peer
into Method.list_channels = Requests.from_list_channels
into Method.list_payments = Requests.from_list_payments
into Method.close_channel = Requests.from_close_channel
into Method.info = Requests.from_info
into Method.list_peers = Requests.from_list_peers
into Method.sign_message = Requests.from_sign_message
into Method.verify_message = Requests.from_verify_message
into Method.list_unspent = Requests.from_list_unspent
into Method.network_graph_info = Requests.from_network_graph_info
into Method.list_known_peers = Requests.from_list_known_peers
into Method.add_known_peer = Requests.from_add_known_peer
into Method.remove_known_peer = Requests.from_remove_known_peer

-- `try_into`
abbrev pub try_into : (m : Method) → NodeResponse → Reply (Response m)
try_into Method.start_node = Replies.to_start_node
try_into Method.stop_node = Replies.to_stop_node
try_into Method.get_unused_address = Replies.to_get_unused_address
try_into Method.get_balance = Replies.to_get_balance
try_into Method.open_channels = Replies.to_open_channels
try_into Method.pay_invoice = Replies.to_pay_invoice
try_into Method.decode_invoice = Replies.to_decode_invoice
try_into Method.keysend = Replies.to_keysend
try_into Method.create_invoice = Replies.to_create_invoice
try_into Method.label_payment = Replies.to_label_payment
try_into Method.delete_payment = Replies.to_delete_payment
try_into Method.connect_peer = Replies.to_connect_peer
try_into Method.list_channels = Replies.to_list_channels
try_into Method.list_payments = Replies.to_list_payments
try_into Method.close_channel = Replies.to_close_channel
try_into Method.info = Replies.to_info
try_into Method.list_peers = Replies.to_list_peers
try_into Method.sign_message = Replies.to_sign_message
try_into Method.verify_message = Replies.to_verify_message
try_into Method.list_unspent = Replies.to_list_unspent
try_into Method.network_graph_info = Replies.to_network_graph_info
try_into Method.list_known_peers = Replies.to_list_known_peers
try_into Method.add_known_peer = Replies.to_add_known_peer
try_into Method.remove_known_peer = Replies.to_remove_known_peer
