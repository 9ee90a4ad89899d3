-- ===== src/Paging/Tests.antt =====
-- Two pages of three channels.
use sensei.Prelude.{
  ◌*◌, ◌≤◌, ◌≡◌, none, some, List, [], ◌∷◌, Text, ok, take, length, select, unwrap_or, arith, true,
}
use sensei.Text.{codes}
use sensei.Paging.{Channel, list_channels, matches_channel}
use sensei.Paging.Pages.{read_pages, request_at, list_channels-pages}

abbrev channel : Text → Channel
channel id = record {
  channel_id = id;
  counterparty_pubkey = codes "key";
  funding_txid = none;
  funding_tx_index = none;
  short_channel_id = none;
  channel_value_satoshis = 100000;
  balance_msat = 100000000;
  unspendable_punishment_reserve = none;
  user_channel_id = 7;
  outbound_capacity_msat = 90000000;
  inbound_capacity_msat = 0;
  confirmations_required = none;
  force_close_spend_delay = none;
  is_outbound = true;
  is_channel_ready = true;
  is_usable = true;
  is_public = true;
  alias = some (codes "bob");
}

abbrev channels : List Channel
channels = channel (codes "a") ∷ channel (codes "b") ∷ channel (codes "c") ∷ []

list_channels-pages_example :
    let matching = select (matches_channel (unwrap_or [] (some (codes "bo")))) channels in
    (read_pages (λ p. list_channels {E = Unit} channels (request_at 2 (some (codes "bo")) p)) 2
      ≡ ok (take (2 * 2) matching))
    × (length matching ≤ 2 * 2 → take (2 * 2) matching ≡ matching)
list_channels-pages_example =
    list_channels-pages channels (some (codes "bo")) 2 2 (omega arith) (omega arith) (omega arith)
      (omega arith)
