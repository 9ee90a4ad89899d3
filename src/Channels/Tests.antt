-- ===== src/Channels/Tests.antt =====
-- The theorems about the opening of channels, at a batch of one channel.
use sensei.Prelude.{
  true, ℕ, zero, suc, ◌≡◌, refl, false, none, some, List, [], ◌∷◌, ok, err, panic, arith, Text,
  ◌=text◌,
}
use sensei.Text.{codes}
use sensei.Wallet.Store
use sensei.Wallet.Tests.Memory.{funded, payment}
use sensei.Broadcaster.{SenseiBroadcaster}
use sensei.Hex.{to_vec, to_vec_from, digit, to_compressed_pubkey}
use sensei.Connect.{parse_pubkey, connected_to_peer}
use sensei.Channels.Types.{
  SenseiEvent, funding_ready, OpenChannelRequest, Result, opened, ChannelOpener,
}
use sensei.Channels.Wait.{wait_for_events, drain, take_event, filter_index, swap_remove}
use sensei.Channels.Rounds.{arrived, Answered, wait_for_events-answers}
use sensei.Channels.Open.{
  passes, identified, initiate_channel_open, initiate_all, fund_one, fund, fund_batch, open_batch,
}
use sensei.Channels.Funding.{requested, AreFunded, Ran, open_batch-pays, open_batch-unanswered}

-- A text of 66 digits.
abbrev pub digits : ℕ → Text
digits zero = []
digits (suc n) = 48 ∷ digits n

abbrev pub opener : ChannelOpener
opener = record {
  node_id = codes "node";
  from_slice = λ bytes. some (codes "peer");
  network = record { to_socket_addrs = λ name. ok []; public_ip = none };
  peer_node_ids = λ i. codes "peer" ∷ [];
  outbound = λ i key addr. false;
  looks = λ i. [];
  create_channel = λ i key amount push id. ok (codes "tcid");
  funding_transaction_generated = λ i tcid key tx. none;
  finish = λ rs st. (ok payment, st);
}

abbrev unbuilding : ChannelOpener
unbuilding = record opener { finish = λ rs st. (err Store.generic, st) }

abbrev request : OpenChannelRequest
request = record {
  counterparty_pubkey = digits 66;
  amount_sats = 100000;
  custom_id = some 7;
  push_amount_msats = none;
  counterparty_host_port = none;
  public = true;
  forwarding_fee_proportional_millionths = none;
  forwarding_fee_base_msat = none;
  cltv_expiry_delta = none;
  max_dust_htlc_exposure_msat = none;
  force_close_avoidance_max_fee_satoshis = none;
}

abbrev ready : SenseiEvent
ready = funding_ready (record {
  node_id = codes "node";
  temporary_channel_id = codes "tcid";
  channel_value_satoshis = 100000;
  output_script = codes "script";
  user_channel_id = 7;
  counterparty_node_id = codes "peer";
})

abbrev pub prompt : ℕ → List SenseiEvent
prompt zero = ready ∷ []
prompt (suc n) = []

-- An event of another node, in each round.
abbrev elsewhere : ℕ → List SenseiEvent
elsewhere n =
    funding_ready (record {
      node_id = codes "other";
      temporary_channel_id = codes "tcid";
      channel_value_satoshis = 100000;
      output_script = codes "script";
      user_channel_id = 7;
      counterparty_node_id = codes "peer";
    })
    ∷ []

abbrev pub draws : ℕ → ℕ
draws i = 1

abbrev idle : SenseiBroadcaster
idle = record { debounce = []; broadcasts = []; events = []; wallet = funded }

abbrev results : List (OpenChannelRequest × Result)
results = (request, opened (codes "tcid")) ∷ []

opens : (open_batch opener draws prompt (request ∷ []) idle).0 ≡ ok results
unfolding open_batch initiate_all initiate_channel_open parse_pubkey to_compressed_pubkey to_vec
    to_vec_from digit wait_for_events drain take_event filter_index swap_remove fund_batch fund
    fund_one connected_to_peer ◌=text◌
opens = refl

open_batch-pays_example :
    (requested results ≡ identified draws 0 (request ∷ []))
    × ((r : Ran opener draws prompt (request ∷ []) idle results) × AreFunded opener 0 r.events
          r.funding_tx results)
open_batch-pays_example = open_batch-pays opener draws prompt (request ∷ []) idle results opens

starts : initiate_all unbuilding 0 (identified draws 0 (request ∷ [])) ≡ ok results
unfolding initiate_all initiate_channel_open parse_pubkey to_compressed_pubkey to_vec to_vec_from
    digit connected_to_peer ◌=text◌
starts = refl

open_batch-unanswered_example :
    (open_batch unbuilding draws elsewhere (request ∷ []) idle).0 ≡ panic
unfolding ◌=text◌
open_batch-unanswered_example =
    open_batch-unanswered unbuilding draws elsewhere (request ∷ []) idle results Store.generic
      starts (λ i. (refl, tt)) refl

wait_for_events-answers_example :
    (es : List SenseiEvent) × (wait_for_events
        (passes opener)
        61
        0
        30000
        500
        prompt
        0
        (record { filters = 7 ∷ []; events = [] })
      ≡ some es)
    × (es
        ≡ (drain
            (passes opener)
            (arrived prompt 0 60)
            (record { filters = 7 ∷ []; events = [] })).1.events)
    × Answered (passes opener) (7 ∷ []) es
wait_for_events-answers_example =
    wait_for_events-answers (passes opener) 60 61 500 30000 prompt (7 ∷ []) (omega arith)
      (omega arith) (omega arith) (omega arith)
