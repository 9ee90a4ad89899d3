-- ===== src/Http.antt =====
-- The HTTP interface to a node: src/http/node.rs.
pub mod Params
use sensei.Prelude.{Bool, Option, none, some, List, Text, Outcome, ok, err, panic}
use sensei.State.{Run, ◌>>=◌, ◌>>◌, pure, lift}
use sensei.Maps.{lookup}
use sensei.Node.Types.{
  NodeRequest, NodeResponse, NodeRequestError, sensei_error, Ending, failed, hangs,
}
use sensei.Transport.{
  Nodes, Server, MacaroonSession, Handling, holding, drop_guard, Aim, stop, start, other, aim,
  macaroon_with_session_from_hex_str, verify_macaroon, served, request_start, request_stop,
}
use Params.{
  GetInvoiceParams, from_get_invoice, LabelPaymentParams, from_label_payment, DeletePaymentParams,
  from_delete_payment, BatchOpenChannelParams, from_batch_open_channel, SendPaymentParams,
  from_send_payment, DecodeInvoiceParams, from_decode_invoice, KeysendParams, from_keysend,
  ConnectPeerParams, from_connect_peer, CloseChannelParams, from_close_channel, StartNodeParams,
  from_start_node, SignMessageParams, from_sign_message, VerifyMessageParams, from_verify_message,
  AddKnownPeerParams, from_add_known_peer, RemoveKnownPeerParams, from_remove_known_peer,
  ListPaymentsParams, payments_filter, payments_pagination, ListChannelsParams, channels_pagination,
  ListTransactionsParams, transactions_pagination, ListKnownPeersParams, known_peers_pagination,
}

pub data StatusCode : Type 0 where
  unauthorized unprocessable_entity : StatusCode

-- The header's value, which may be no text, before the cookie.
unfoldable pub get_macaroon_hex_str_from_cookies_or_header :
    Option Text → Option (Option Text) → Outcome (Ending StatusCode) Text
get_macaroon_hex_str_from_cookies_or_header cookie (some (some macaroon)) = ok macaroon
get_macaroon_hex_str_from_cookies_or_header cookie (some none) = err (failed unauthorized)
get_macaroon_hex_str_from_cookies_or_header (some macaroon) none = ok macaroon
get_macaroon_hex_str_from_cookies_or_header none none = err (failed unauthorized)

-- An error of the node is the response `Error`.
abbrev pub as_response :
    {E : Type 0} → Outcome (Ending NodeRequestError) NodeResponse → Outcome (Ending E) NodeResponse
as_response (ok response) = ok response
as_response (err (failed e)) = ok (NodeResponse.error e)
as_response (err hangs) = err hangs
as_response panic = panic

module _ {Handle Macaroon World : Type 0} (n : Nodes Handle Macaroon World) where
  abbrev pub answered : Handle → NodeRequest → Handling Handle World StatusCode NodeResponse
  answered handle request s =
      let (r, s') = served n {E = NodeRequestError} (λ e. e) handle request s in (as_response r, s')

  abbrev pub not_authenticated : Handling Handle World StatusCode NodeResponse
  not_authenticated = pure (NodeResponse.error sensei_error)

  -- A request to a running node, which has made the macaroon.
  abbrev pub verified_request :
      Handle → MacaroonSession → NodeRequest → Handling Handle World StatusCode NodeResponse
  verified_request handle session request = elim (aim request) [
    | stop ↦ (do request_stop n unprocessable_entity session.pubkey; pure NodeResponse.stopped)
    | start passphrase ↦ answered handle request
    | other ↦ answered handle request
  ]

  -- The guard is held to the end of the function, also while the admin service stops a node.
  unfoldable pub dispatch :
      Macaroon → MacaroonSession → NodeRequest → Handling Handle World StatusCode NodeResponse
  dispatch macaroon session request s = elim (lookup session.pubkey s.service.node_directory) [
    | some (some handle) ↦
        (do
          verify_macaroon n unauthorized handle macaroon session
          verified_request handle session request)
          s
    | some none ↦ not_authenticated s
    | none ↦ elim (aim request) [
      | stop ↦ not_authenticated s
      | start passphrase ↦
          (do
            drop_guard
            request_start n unauthorized session.pubkey passphrase
            pure NodeResponse.started)
            s
      | other ↦ not_authenticated s
    ]
  ]

  unfoldable pub handle_authenticated_request :
      NodeRequest
      → Option (Option Text)
      → Option Text
      → Handling Handle World StatusCode NodeResponse
  handle_authenticated_request request macaroon cookie = do
    macaroon_hex_string ← lift (get_macaroon_hex_str_from_cookies_or_header cookie macaroon)
    (macaroon, session) ←
        lift (macaroon_with_session_from_hex_str n (failed unauthorized) macaroon_hex_string)
    holding (dispatch macaroon session request)

  -- The parameters as serde_json reads them, if it does.
  abbrev parsed :
      {A : Type 0}
      → (A → NodeRequest)
      → Option A
      → Option (Option Text)
      → Option Text
      → Handling Handle World StatusCode NodeResponse
  parsed f none macaroon cookie = lift (err (failed unprocessable_entity))
  parsed f (some params) macaroon cookie = handle_authenticated_request (f params) macaroon cookie

  -- A handler takes what the headers and the cookies have of the macaroon.
  abbrev Handler : Type 0
  Handler = Option (Option Text) → Option Text → Handling Handle World StatusCode NodeResponse

  unfoldable pub get_unused_address : Handler
  get_unused_address = handle_authenticated_request NodeRequest.get_unused_address

  unfoldable pub get_wallet_balance : Handler
  get_wallet_balance = handle_authenticated_request NodeRequest.get_balance

  unfoldable pub get_info : Handler
  get_info = handle_authenticated_request NodeRequest.node_info

  unfoldable pub get_peers : Handler
  get_peers = handle_authenticated_request NodeRequest.list_peers

  unfoldable pub stop_node : Handler
  stop_node = handle_authenticated_request NodeRequest.stop_node

  unfoldable pub list_unspent : Handler
  list_unspent = handle_authenticated_request NodeRequest.list_unspent

  unfoldable pub network_graph_info : Handler
  network_graph_info = handle_authenticated_request NodeRequest.network_graph_info

  unfoldable pub handle_get_payments : ListPaymentsParams → Handler
  handle_get_payments params =
      handle_authenticated_request
        (NodeRequest.list_payments (payments_pagination params) (payments_filter params))

  unfoldable pub get_channels : ListChannelsParams → Handler
  get_channels params =
      handle_authenticated_request (NodeRequest.list_channels (channels_pagination params))

  unfoldable pub get_transactions : ListTransactionsParams → Handler
  get_transactions params =
      handle_authenticated_request (NodeRequest.list_transactions (transactions_pagination params))

  unfoldable pub list_known_peers : ListKnownPeersParams → Handler
  list_known_peers params =
      handle_authenticated_request (NodeRequest.list_known_peers (known_peers_pagination params))

  unfoldable pub create_invoice : Option GetInvoiceParams → Handler
  create_invoice = parsed from_get_invoice

  unfoldable pub label_payment : Option LabelPaymentParams → Handler
  label_payment = parsed from_label_payment

  unfoldable pub delete_payment : Option DeletePaymentParams → Handler
  delete_payment = parsed from_delete_payment

  unfoldable pub open_channels : Option BatchOpenChannelParams → Handler
  open_channels = parsed from_batch_open_channel

  unfoldable pub pay_invoice : Option SendPaymentParams → Handler
  pay_invoice = parsed from_send_payment

  unfoldable pub decode_invoice : Option DecodeInvoiceParams → Handler
  decode_invoice = parsed from_decode_invoice

  unfoldable pub keysend : Option KeysendParams → Handler
  keysend = parsed from_keysend

  unfoldable pub connect_peer : Option ConnectPeerParams → Handler
  connect_peer = parsed from_connect_peer

  unfoldable pub close_channel : Option CloseChannelParams → Handler
  close_channel = parsed from_close_channel

  unfoldable pub start_node : Option StartNodeParams → Handler
  start_node = parsed from_start_node

  unfoldable pub sign_message : Option SignMessageParams → Handler
  sign_message = parsed from_sign_message

  unfoldable pub verify_message : Option VerifyMessageParams → Handler
  verify_message = parsed from_verify_message

  unfoldable pub add_known_peer : Option AddKnownPeerParams → Handler
  add_known_peer = parsed from_add_known_peer

  unfoldable pub remove_known_peer : Option RemoveKnownPeerParams → Handler
  remove_known_peer = parsed from_remove_known_peer
