-- ===== src/Http/Params.antt =====
-- The parameters of the requests over HTTP: src/http/node.rs, and those of the listings in
-- senseicore/src/services/mod.rs. Numbers are within their types, since serde_json refuses others.
use sensei.Prelude.{ℕ, Bool, Option, List, Text}
use sensei.Paging.{PaginationRequest}
use sensei.Listings.{PaymentsFilter}
use sensei.Channels.Types.{OpenChannelRequest}
use sensei.Node.Types.{NodeRequest}

pub record GetInvoiceParams : Type 0 where
  pub amt_msat : ℕ
  pub description : Text

unfoldable pub from_get_invoice : GetInvoiceParams → NodeRequest
from_get_invoice params = NodeRequest.get_invoice params.amt_msat params.description

pub record LabelPaymentParams : Type 0 where
  pub label : Text
  pub payment_hash : Text

unfoldable pub from_label_payment : LabelPaymentParams → NodeRequest
from_label_payment params = NodeRequest.label_payment params.label params.payment_hash

pub record DeletePaymentParams : Type 0 where
  pub payment_hash : Text

unfoldable pub from_delete_payment : DeletePaymentParams → NodeRequest
from_delete_payment params = NodeRequest.delete_payment params.payment_hash

pub record BatchOpenChannelParams : Type 0 where
  pub requests : List OpenChannelRequest

unfoldable pub from_batch_open_channel : BatchOpenChannelParams → NodeRequest
from_batch_open_channel params = NodeRequest.open_channels params.requests

pub record SendPaymentParams : Type 0 where
  pub invoice : Text

unfoldable pub from_send_payment : SendPaymentParams → NodeRequest
from_send_payment params = NodeRequest.send_payment params.invoice

pub record DecodeInvoiceParams : Type 0 where
  pub invoice : Text

unfoldable pub from_decode_invoice : DecodeInvoiceParams → NodeRequest
from_decode_invoice params = NodeRequest.decode_invoice params.invoice

pub record KeysendParams : Type 0 where
  pub dest_pubkey : Text
  pub amt_msat : ℕ

unfoldable pub from_keysend : KeysendParams → NodeRequest
from_keysend params = NodeRequest.keysend params.dest_pubkey params.amt_msat

pub record ConnectPeerParams : Type 0 where
  pub node_connection_string : Text

unfoldable pub from_connect_peer : ConnectPeerParams → NodeRequest
from_connect_peer params = NodeRequest.connect_peer params.node_connection_string

pub record CloseChannelParams : Type 0 where
  pub channel_id : Text
  pub force : Bool

unfoldable pub from_close_channel : CloseChannelParams → NodeRequest
from_close_channel params = NodeRequest.close_channel params.channel_id params.force

pub record StartNodeParams : Type 0 where
  pub passphrase : Text

unfoldable pub from_start_node : StartNodeParams → NodeRequest
from_start_node params = NodeRequest.start_node params.passphrase

pub record SignMessageParams : Type 0 where
  pub message : Text

unfoldable pub from_sign_message : SignMessageParams → NodeRequest
from_sign_message params = NodeRequest.sign_message params.message

pub record VerifyMessageParams : Type 0 where
  pub message : Text
  pub signature : Text

unfoldable pub from_verify_message : VerifyMessageParams → NodeRequest
from_verify_message params = NodeRequest.verify_message params.message params.signature

pub record AddKnownPeerParams : Type 0 where
  pub pubkey : Text
  pub label : Text
  pub zero_conf : Bool

unfoldable pub from_add_known_peer : AddKnownPeerParams → NodeRequest
from_add_known_peer params = NodeRequest.add_known_peer params.pubkey params.label params.zero_conf

pub record RemoveKnownPeerParams : Type 0 where
  pub pubkey : Text

unfoldable pub from_remove_known_peer : RemoveKnownPeerParams → NodeRequest
from_remove_known_peer params = NodeRequest.remove_known_peer params.pubkey

pub record ListPaymentsParams : Type 0 where
  pub page : ℕ
  pub take : ℕ
  pub origin : Option Text
  pub status : Option Text
  pub query : Option Text

unfoldable pub payments_filter : ListPaymentsParams → PaymentsFilter
payments_filter params = record { origin = params.origin; status = params.status }

unfoldable pub payments_pagination : ListPaymentsParams → PaginationRequest
payments_pagination params = record { page = params.page; take = params.take; query = params.query }

pub record ListChannelsParams : Type 0 where
  pub page : ℕ
  pub take : ℕ
  pub query : Option Text

unfoldable pub channels_pagination : ListChannelsParams → PaginationRequest
channels_pagination params = record { page = params.page; take = params.take; query = params.query }

pub record ListTransactionsParams : Type 0 where
  pub page : ℕ
  pub take : ℕ
  pub query : Option Text

unfoldable pub transactions_pagination : ListTransactionsParams → PaginationRequest
transactions_pagination params = record {
  page = params.page;
  take = params.take;
  query = params.query;
}

pub record ListKnownPeersParams : Type 0 where
  pub page : ℕ
  pub take : ℕ
  pub query : Option Text

unfoldable pub known_peers_pagination : ListKnownPeersParams → PaginationRequest
known_peers_pagination params = record {
  page = params.page;
  take = params.take;
  query = params.query;
}
