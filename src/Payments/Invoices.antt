-- ===== src/Payments/Invoices.antt =====
-- Invoices as the Lightning library gives them, and `LocalInvoice` of senseicore/src/node.rs.
use sensei.Prelude.{ℕ, Bool, Option, List, [], Text, unwrap_or}

pub record RoutingFees : Type 0 where
  pub base_msat : ℕ
  pub proportional_millionths : ℕ

-- The library's hop and `LocalRouteHintHop`, which copies its fields.
pub record LocalRouteHintHop : Type 0 where
  pub src_node_id : Text
  pub short_channel_id : ℕ
  pub fees : RoutingFees
  pub cltv_expiry_delta : ℕ
  pub htlc_minimum_msat : Option ℕ
  pub htlc_maximum_msat : Option ℕ

pub record LocalRouteHint : Type 0 where
  pub hops : List LocalRouteHintHop

pub record LocalInvoiceFeatures : Type 0 where
  pub variable_length_onion : Bool
  pub payment_secret : Bool
  pub basic_mpp : Bool

-- What is read of the library's invoice: the hash and the secret as hexadecimal text, the description
-- unless it is a hash, the times in seconds, and which features are supported.
pub record Invoice : Type 0 where
  pub payment_hash : Text
  pub payment_secret : Text
  pub amount_milli_satoshis : Option ℕ
  pub text : Text
  pub currency : Text
  pub description : Option Text
  pub expiry_time : ℕ
  pub timestamp : ℕ
  pub min_final_cltv_expiry : ℕ
  pub route_hints : List LocalRouteHint
  pub features : Option LocalInvoiceFeatures
  pub payee_pub_key : Text

pub record LocalInvoice : Type 0 where
  pub payment_hash : Text
  pub currency : Text
  pub amount : ℕ
  pub description : Text
  pub expiry : ℕ
  pub timestamp : ℕ
  pub min_final_cltv_expiry : ℕ
  pub route_hints : List LocalRouteHint
  pub features : Option LocalInvoiceFeatures
  pub payee_pub_key : Text

-- `From<Invoice>`: no amount is 0, and a hash in place of a description is an empty text.
unfoldable pub local_invoice : Invoice → LocalInvoice
local_invoice invoice = record {
  payment_hash = invoice.payment_hash;
  currency = invoice.currency;
  amount = unwrap_or 0 invoice.amount_milli_satoshis;
  description = unwrap_or [] invoice.description;
  expiry = invoice.expiry_time;
  timestamp = invoice.timestamp;
  min_final_cltv_expiry = invoice.min_final_cltv_expiry;
  route_hints = invoice.route_hints;
  features = invoice.features;
  payee_pub_key = invoice.payee_pub_key;
}
