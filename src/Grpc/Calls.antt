-- ===== src/Grpc/Calls.antt =====
-- The requests and responses of the service `Node` of src/proto/sensei.proto. A message without fields
-- is `Unit`.
use sensei.Prelude.{ℕ, Bool, Option, List, Text}
use sensei.Grpc.Messages.{
  PaginationRequest, PaginationResponse, Channel, Payment, PaymentsFilter, Info, Peer, Utxo,
  KnownPeer, OpenChannelRequest, OpenChannelResult, Invoice,
}

pub record StartNodeRequest : Type 0 where
  pub passphrase : Text

abbrev pub StartNodeResponse : Type 0
StartNodeResponse = Unit {0}

abbrev pub StopNodeRequest : Type 0
StopNodeRequest = Unit {0}

abbrev pub StopNodeResponse : Type 0
StopNodeResponse = Unit {0}

abbrev pub GetUnusedAddressRequest : Type 0
GetUnusedAddressRequest = Unit {0}

pub record GetUnusedAddressResponse : Type 0 where
  pub address : Text

abbrev pub GetBalanceRequest : Type 0
GetBalanceRequest = Unit {0}

pub record GetBalanceResponse : Type 0 where
  pub onchain_balance_sats : ℕ
  pub channel_balance_msats : ℕ
  pub channel_outbound_capacity_msats : ℕ
  pub channel_inbound_capacity_msats : ℕ
  pub usable_channel_outbound_capacity_msats : ℕ
  pub usable_channel_inbound_capacity_msats : ℕ

pub record OpenChannelsRequest : Type 0 where
  pub requests : List OpenChannelRequest

pub record OpenChannelsResponse : Type 0 where
  pub requests : List OpenChannelRequest
  pub results : List OpenChannelResult

pub record PayInvoiceRequest : Type 0 where
  pub invoice : Text

abbrev pub PayInvoiceResponse : Type 0
PayInvoiceResponse = Unit {0}

pub record DecodeInvoiceRequest : Type 0 where
  pub invoice : Text

pub record DecodeInvoiceResponse : Type 0 where
  pub invoice : Option Invoice

pub record KeysendRequest : Type 0 where
  pub dest_pubkey : Text
  pub amt_msat : ℕ

abbrev pub KeysendResponse : Type 0
KeysendResponse = Unit {0}

pub record CreateInvoiceRequest : Type 0 where
  pub amt_msat : ℕ
  pub description : Text

pub record CreateInvoiceResponse : Type 0 where
  pub invoice : Text

pub record LabelPaymentRequest : Type 0 where
  pub label : Text
  pub payment_hash : Text

abbrev pub LabelPaymentResponse : Type 0
LabelPaymentResponse = Unit {0}

pub record DeletePaymentRequest : Type 0 where
  pub payment_hash : Text

abbrev pub DeletePaymentResponse : Type 0
DeletePaymentResponse = Unit {0}

pub record ConnectPeerRequest : Type 0 where
  pub node_connection_string : Text

abbrev pub ConnectPeerResponse : Type 0
ConnectPeerResponse = Unit {0}

pub record ListChannelsRequest : Type 0 where
  pub pagination : Option PaginationRequest

pub record ListChannelsResponse : Type 0 where
  pub channels : List Channel
  pub pagination : Option PaginationResponse

pub record ListPaymentsRequest : Type 0 where
  pub pagination : Option PaginationRequest
  pub filter : Option PaymentsFilter

pub record ListPaymentsResponse : Type 0 where
  pub payments : List Payment
  pub pagination : Option PaginationResponse

pub record CloseChannelRequest : Type 0 where
  pub channel_id : Text
  pub force : Bool

abbrev pub CloseChannelResponse : Type 0
CloseChannelResponse = Unit {0}

abbrev pub InfoRequest : Type 0
InfoRequest = Unit {0}

pub record InfoResponse : Type 0 where
  pub node_info : Option Info

abbrev pub ListPeersRequest : Type 0
ListPeersRequest = Unit {0}

pub record ListPeersResponse : Type 0 where
  pub peers : List Peer

pub record SignMessageRequest : Type 0 where
  pub message : Text

pub record SignMessageResponse : Type 0 where
  pub signature : Text

pub record VerifyMessageRequest : Type 0 where
  pub message : Text
  pub signature : Text

pub record VerifyMessageResponse : Type 0 where
  pub valid : Bool
  pub pubkey : Text

abbrev pub ListUnspentRequest : Type 0
ListUnspentRequest = Unit {0}

pub record ListUnspentResponse : Type 0 where
  pub utxos : List Utxo

abbrev pub NetworkGraphInfoRequest : Type 0
NetworkGraphInfoRequest = Unit {0}

pub record NetworkGraphInfoResponse : Type 0 where
  pub num_channels : ℕ
  pub num_nodes : ℕ
  pub num_known_edge_policies : ℕ

pub record ListKnownPeersRequest : Type 0 where
  pub pagination : Option PaginationRequest

pub record ListKnownPeersResponse : Type 0 where
  pub peers : List KnownPeer
  pub pagination : Option PaginationResponse

pub record AddKnownPeerRequest : Type 0 where
  pub pubkey : Text
  pub label : Text
  pub zero_conf : Bool

abbrev pub AddKnownPeerResponse : Type 0
AddKnownPeerResponse = Unit {0}

pub record RemoveKnownPeerRequest : Type 0 where
  pub pubkey : Text

abbrev pub RemoveKnownPeerResponse : Type 0
RemoveKnownPeerResponse = Unit {0}
