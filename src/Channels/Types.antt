-- ===== src/Channels/Types.antt =====
-- The requests for channels, the events that answer them, and what a channel opener works with.
use sensei.Prelude.{ℕ, Bool, Option, List, Text, Outcome}
use sensei.Wallet.Types.{Stored, Transaction}
use sensei.Wallet.Store
use sensei.Events.{FundingReady}
use sensei.Connect.{SocketAddr, Network, Look}

pub data SenseiEvent : Type 0 where
  transaction_broadcast : (node_id txid : Text) → SenseiEvent
  funding_ready : FundingReady → SenseiEvent

-- `OpenChannelRequest` of senseicore/src/services/node.rs. What follows the address is handed to the
-- Lightning library.
pub record OpenChannelRequest : Type 0 where
  pub counterparty_pubkey : Text
  pub amount_sats : ℕ
  pub custom_id : Option ℕ
  pub push_amount_msats : Option ℕ
  pub counterparty_host_port : Option Text
  pub public : Bool
  pub forwarding_fee_proportional_millionths : Option ℕ
  pub forwarding_fee_base_msat : Option ℕ
  pub cltv_expiry_delta : Option ℕ
  pub max_dust_htlc_exposure_msat : Option ℕ
  pub force_close_avoidance_max_fee_satoshis : Option ℕ

-- `crate::error::Error`, as far as the opening of a channel ends in it.
pub data OpenError : Type 0 where
  ldk_api : Text → OpenError
  funding_generation_never_happened : OpenError

-- `Result<[u8; 32], Error>`, the former as its bytes.
pub data Result : Type 0 where
  opened : Text → Result
  refused : OpenError → Result

-- A call that does not come back.
pub data Stuck : Type 0 where
  stuck : Stuck

-- A request with its result, and who was asked to fund it.
pub record Opening : Type 0 where
  pub request : OpenChannelRequest
  pub result : Result
  pub counterparty_node_id : Option Text

-- What the opener asks of the Lightning library, of its peers and of bdk. The number is that of the
-- call: two calls with the same arguments may be answered differently. `looks` are those at the
-- connection that the call makes, `finish` builds the transaction that pays the recipients at the
-- fee rate of now, and signs it.
pub record ChannelOpener : Type 0 where
  pub node_id : Text
  pub from_slice : Text → Option Text
  pub network : Network
  pub peer_node_ids : ℕ → List Text
  pub outbound : ℕ → Text → SocketAddr → Bool
  pub looks : ℕ → List Look
  pub create_channel : ℕ → Text → ℕ → ℕ → ℕ → Outcome Text Text
  pub funding_transaction_generated : ℕ → Text → Text → Transaction → Option Text
  pub finish : List (Text × ℕ) → Stored → Outcome Store.Error Transaction × Stored
