-- ===== src/Grpc/Messages.antt =====
-- The messages of src/proto/sensei.proto that the service `Node` speaks in, as the build makes records
-- of them: an `optional` field, or one that holds a message, is an `Option`.
use sensei.Prelude.{ℕ, Bool, Option, List, Text}

pub record PaginationRequest : Type 0 where
  pub page : ℕ
  pub take : ℕ
  pub query : Option Text

pub record PaginationResponse : Type 0 where
  pub has_more : Bool
  pub total : ℕ

pub record Channel : Type 0 where
  pub channel_id : Text
  pub funding_txid : Option Text
  pub funding_tx_index : Option ℕ
  pub short_channel_id : Option ℕ
  pub channel_value_satoshis : ℕ
  pub balance_msat : ℕ
  pub unspendable_punishment_reserve : Option ℕ
  pub user_channel_id : ℕ
  pub outbound_capacity_msat : ℕ
  pub inbound_capacity_msat : ℕ
  pub confirmations_required : Option ℕ
  pub force_close_spend_delay : Option ℕ
  pub is_outbound : Bool
  pub is_channel_ready : Bool
  pub is_usable : Bool
  pub is_public : Bool
  pub counterparty_pubkey : Text
  pub alias : Option Text

pub record Payment : Type 0 where
  pub hash : Text
  pub preimage : Option Text
  pub secret : Option Text
  pub status : Text
  pub amt_msat : Option ℕ
  pub fee_paid_msat : Option ℕ
  pub origin : Text
  pub label : Option Text
  pub invoice : Option Text

pub record PaymentsFilter : Type 0 where
  pub origin : Option Text
  pub status : Option Text

pub record Info : Type 0 where
  pub version : Text
  pub node_pubkey : Text
  pub num_channels : ℕ
  pub num_usable_channels : ℕ
  pub num_peers : ℕ

pub record Peer : Type 0 where
  pub node_pubkey : Text

pub record Utxo : Type 0 where
  pub amount_sat : ℕ
  pub spk : Text
  pub txid : Text
  pub output_index : ℕ

pub record KnownPeer : Type 0 where
  pub pubkey : Text
  pub label : Option Text
  pub zero_conf : Bool

pub record OpenChannelRequest : Type 0 where
  pub counterparty_pubkey : Text
  pub amount_sats : ℕ
  pub public : Bool
  pub push_amount_msats : Option ℕ
  pub custom_id : Option ℕ
  pub counterparty_host_port : Option Text
  pub forwarding_fee_proportional_millionths : Option ℕ
  pub forwarding_fee_base_msat : Option ℕ
  pub cltv_expiry_delta : Option ℕ
  pub max_dust_htlc_exposure_msat : Option ℕ
  pub force_close_avoidance_max_fee_satoshis : Option ℕ

pub record OpenChannelResult : Type 0 where
  pub error : Bool
  pub error_message : Option Text
  pub temp_channel_id : Option Text

pub record RoutingFees : Type 0 where
  pub base_msat : ℕ
  pub proportional_millionths : ℕ

pub record RouteHintHop : Type 0 where
  pub src_node_id : Text
  pub short_channel_id : ℕ
  pub fees : Option RoutingFees
  pub cltv_expiry_delta : ℕ
  pub htlc_minimum_msat : Option ℕ
  pub htlc_maximum_msat : Option ℕ

pub record RouteHint : Type 0 where
  pub hops : List RouteHintHop

pub record Features : Type 0 where
  pub variable_length_onion : Bool
  pub payment_secret : Bool
  pub basic_mpp : Bool

pub record Invoice : Type 0 where
  pub payment_hash : Text
  pub currency : Text
  pub amount : ℕ
  pub description : Text
  pub expiry : ℕ
  pub timestamp : ℕ
  pub min_final_cltv_expiry : ℕ
  pub route_hints : List RouteHint
  pub features : Option Features
  pub payee_pub_key : Text
