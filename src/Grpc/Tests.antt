-- ===== src/Grpc/Tests.antt =====
-- The theorems about the service over gRPC, at the running node of the tests of the transports.
use sensei.Prelude.{◌≡◌, refl, false, true, none, some, [], ◌∷◌, map, ◌=text◌, Outcome, ok, All}
use sensei.Text.{codes}
use sensei.Hex.{to_vec, to_vec_from, digit, to_compressed_pubkey, hex_str}
use sensei.Maps.{lookup}
use sensei.Events.{NodeState}
use sensei.Node.Types.{NodeResponse, Ending}
use sensei.Node.Queries.{LightningNode}
use sensei.Node.Call.{call, open_channels, open_channel_result}
use sensei.Node.Answers.{call-Answers}
use sensei.Transport.{
  Server, macaroon_with_session_from_hex_str, macaroon_from_hex_str, verify_macaroon, aim,
}
use sensei.Transport.Tests.Running.{nodes, running}
use sensei.Channels.Tests.{digits}
use sensei.Channels.Wait.{wait_for_events, drain, take_event, filter_index, swap_remove}
use sensei.Channels.Open.{
  initiate_channel_open, initiate_all, fund_one, fund, fund_batch, open_batch,
}
use sensei.Connect.{parse_pubkey, connected_to_peer}
use sensei.Grpc.Contents.{open_channel_message, open_channel_result_message}
use sensei.Grpc.Replies.{to_open_channels}
use sensei.Grpc.Calls
use sensei.Grpc.Methods.{Method, Response, try_into}
use sensei.Grpc.Service.{
  Status, authenticated_request, method, dispatch, raw_macaroon_from_metadata,
}
use sensei.Grpc.Requests.{from_sign_message, from_open_channel, from_open_channels}
use sensei.Grpc.Messages.{OpenChannelRequest}
use sensei.Grpc.Fits.{AnswersInKind, method-converts}
use sensei.Grpc.Echo.{HasShortDelta, with_short_delta, method-repeats}

-- The nodes are served by `call`, which answers in kind.
nodes-AnswersInKind : AnswersInKind nodes
nodes-AnswersInKind handle request w w' r e = call-Answers handle w w' r request e

abbrev hello : Calls.SignMessageRequest
hello = record { message = codes "hello" }

method-converts_example :
    (message : Response Method.sign_message) × ((try_into Method.sign_message
          (NodeResponse.signature (codes "signature"))
        ≡ ok message)
      × (method nodes Method.sign_message (some (some (codes "ab"))) hello running
          ≡ (ok message, running)))
unfolding authenticated_request to_vec to_vec_from digit lookup ◌=text◌ call
    raw_macaroon_from_metadata macaroon_with_session_from_hex_str macaroon_from_hex_str dispatch
    verify_macaroon aim from_sign_message
method-converts_example =
    method-converts nodes nodes-AnswersInKind Method.sign_message (some (some (codes "ab"))) hello
      running running (NodeResponse.signature (codes "signature")) refl

-- A request for a channel, whose delta has 17 bits.
abbrev long : OpenChannelRequest
long = record {
  counterparty_pubkey = digits 66;
  amount_sats = 100000;
  public = true;
  push_amount_msats = none;
  custom_id = some 7;
  counterparty_host_port = none;
  forwarding_fee_proportional_millionths = none;
  forwarding_fee_base_msat = none;
  cltv_expiry_delta = some 70000;
  max_dust_htlc_exposure_msat = none;
  force_close_avoidance_max_fee_satoshis = none;
}

abbrev long_one : Calls.OpenChannelsRequest
long_one = record { requests = long ∷ [] }

abbrev run : Outcome (Ending Status) Calls.OpenChannelsResponse × Server LightningNode NodeState
run = method nodes Method.open_channels (some (some (codes "ab"))) long_one running

abbrev answer : Calls.OpenChannelsResponse
answer = record {
  requests = with_short_delta long ∷ [];
  results =
      (record {
        error = false;
        error_message = none;
        temp_channel_id = some (hex_str (codes "tcid"));
      })
      ∷ [];
}

method-repeats_example :
    (answer.requests ≡ map with_short_delta long_one.requests)
    × (All HasShortDelta long_one.requests → answer.requests ≡ long_one.requests)
unfolding method authenticated_request raw_macaroon_from_metadata macaroon_with_session_from_hex_str
    macaroon_from_hex_str to_vec to_vec_from digit dispatch lookup ◌=text◌ verify_macaroon aim
    from_open_channels from_open_channel call open_channels open_batch initiate_all
    initiate_channel_open parse_pubkey to_compressed_pubkey wait_for_events drain take_event
    filter_index swap_remove fund_batch fund fund_one connected_to_peer open_channel_result
    open_channel_message open_channel_result_message to_open_channels
method-repeats_example =
    method-repeats nodes nodes-AnswersInKind (some (some (codes "ab"))) long_one running run.1
      answer refl
