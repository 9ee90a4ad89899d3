-- ===== src/Channels/Open.antt =====
-- `open_batch` and `initiate_channel_open` of senseicore/src/channels.rs, `open_channel` of
-- senseicore/src/node.rs.
use sensei.Prelude.{
  ℕ, suc, Bool, true, false, ◌&&◌, Option, none, some, List, [], ◌∷◌, map, find, Text, ◌=text◌,
  ◌==◌, Outcome, ok, err, panic, ◌>>=◌, expect_some, unwrap_or, if◌then◌else◌, select, length,
}
use sensei.Wallet.Types.{Transaction}
use sensei.Broadcaster.{SenseiBroadcaster, set_debounce}
use sensei.Connect.{parse_pubkey, parse_peer_addr, connected_to_peer, connect_peer_if_necessary}
use sensei.Channels.Types.{
  SenseiEvent, transaction_broadcast, funding_ready, OpenChannelRequest, ldk_api,
  funding_generation_never_happened, Result, opened, refused, Stuck, stuck, Opening, ChannelOpener,
}
use sensei.Channels.Wait.{wait_for_events}

-- Each request gets an id, which is drawn where it brings none.
abbrev pub identified : (ℕ → ℕ) → ℕ → List OpenChannelRequest → List OpenChannelRequest
identified draws i [] = []
identified draws i (request ∷ requests) =
    record request { custom_id = some (unwrap_or (draws i) request.custom_id) }
    ∷ identified draws (suc i) requests

abbrev pub is_opened : Result → Bool
is_opened (opened tcid) = true
is_opened (refused e) = false

-- The event that asks for the funding of the request with this id.
abbrev pub answers : ℕ → SenseiEvent → Bool
answers id (funding_ready f) = f.user_channel_id == id
answers id (transaction_broadcast node_id txid) = false

-- The recipients of the funding transaction.
abbrev pub recipients : List SenseiEvent → List (Text × ℕ)
recipients [] = []
recipients (funding_ready f ∷ events) =
    (f.output_script, f.channel_value_satoshis) ∷ recipients events
recipients (transaction_broadcast node_id txid ∷ events) = recipients events

abbrev counterparty : SenseiEvent → Option Text
counterparty (funding_ready f) = some f.counterparty_node_id
counterparty (transaction_broadcast node_id txid) = none

-- A request whose event did not come has failed.
abbrev pub mark : List SenseiEvent → OpenChannelRequest × Result → Opening
mark events (request, refused e) = record {
  request = request;
  result = refused e;
  counterparty_node_id = none;
}
mark events (request, opened tcid) = elim (find (answers (unwrap_or 0 request.custom_id)) events) [
  | none ↦ record {
    request = request;
    result = refused funding_generation_never_happened;
    counterparty_node_id = none;
  }
  | some event ↦ record {
    request = request;
    result = opened tcid;
    counterparty_node_id = counterparty event;
  }
]

abbrev pub channels_to_open : List Opening → ℕ
channels_to_open openings = length (select (λ c. is_opened c.result) openings)

module _ (o : ChannelOpener) where
  -- The filter of a request, which is given by its id.
  abbrev pub passes : ℕ → SenseiEvent → Bool
  passes id (funding_ready f) = (f.node_id =text o.node_id) && (f.user_channel_id == id)
  passes id (transaction_broadcast node_id txid) = false

  -- Before the channel is asked for, the node connects to the peer, or panics.
  abbrev connected : ℕ → Text → Option Text → Outcome Stuck (Unit {0})
  connected i key host_port = if connected_to_peer key (o.peer_node_ids i) then ok tt else (do
    counterparty_host_port ← expect_some host_port
    elim (parse_peer_addr o.network counterparty_host_port) [
      | ok addr ↦
          elim (connect_peer_if_necessary key (o.peer_node_ids i) (o.outbound i key addr)
            (o.looks i)) [ none ↦ err stuck | some done ↦ if done then ok tt else panic ]
      | err e ↦ panic
      | panic ↦ panic
    ])

  unfoldable pub initiate_channel_open : ℕ → OpenChannelRequest → Outcome Stuck Result
  initiate_channel_open i request = elim (parse_pubkey o.from_slice request.counterparty_pubkey) [
    | ok key ↦ (do
      _ ← connected i key request.counterparty_host_port
      custom_id ← expect_some request.custom_id
      elim (o.create_channel i key request.amount_sats (unwrap_or 0 request.push_amount_msats)
          custom_id) [
            | ok tcid ↦ ok (opened tcid)
            | err e ↦ ok (refused (ldk_api e))
            | panic ↦ panic
          ])
    | err e ↦ panic
    | panic ↦ panic
  ]

  unfoldable pub initiate_all :
      ℕ → List OpenChannelRequest → Outcome Stuck (List (OpenChannelRequest × Result))
  initiate_all i [] = ok []
  initiate_all i (request ∷ requests) = do
    result ← initiate_channel_open i request
    rest ← initiate_all (suc i) requests
    ok ((request, result) ∷ rest)

  -- The filters of the requests that went well so far.
  abbrev pub filters : List (OpenChannelRequest × Result) → List ℕ
  filters [] = []
  filters ((request, opened tcid) ∷ rest) = unwrap_or 0 request.custom_id ∷ filters rest
  filters ((request, refused e) ∷ rest) = filters rest

  unfoldable pub fund_one : ℕ → Transaction → Opening → Outcome Stuck Result
  fund_one i funding_tx c = elim c.result [
    | opened tcid ↦ (do
      counterparty_node_id ← expect_some c.counterparty_node_id
      ok (elim (o.funding_transaction_generated i tcid counterparty_node_id funding_tx) [
        | none ↦ opened tcid
        | some e ↦ refused (ldk_api e)
      ]))
    | refused e ↦ ok (refused e)
  ]

  unfoldable pub fund :
      ℕ → Transaction → List Opening → Outcome Stuck (List (OpenChannelRequest × Result))
  fund i funding_tx [] = ok []
  fund i funding_tx (c ∷ rest) = do
    result ← fund_one i funding_tx c
    others ← fund (suc i) funding_tx rest
    ok ((c.request, result) ∷ others)

  -- What follows on the wait, in the state of the broadcaster and its wallet of then.
  unfoldable pub fund_batch :
      List (OpenChannelRequest × Result)
      → List SenseiEvent
      → SenseiBroadcaster
      → Outcome Stuck (List (OpenChannelRequest × Result)) × SenseiBroadcaster
  fund_batch requests_with_results events b =
      let openings = map (mark events) requests_with_results in
      let (built, wallet) = o.finish (recipients events) b.wallet in
      elim built [
        | ok funding_tx ↦ (
          fund 0 funding_tx openings,
          set_debounce funding_tx.txid (channels_to_open openings) (record b { wallet = wallet }),
        )
        | err e ↦ (panic, record b { wallet = wallet })
        | panic ↦ (panic, record b { wallet = wallet })
      ]

  -- `polls` are the events that arrive while the opener waits. The wait of 30 seconds has 60 rounds.
  unfoldable pub open_batch :
      (draws : ℕ → ℕ) (polls : ℕ → List SenseiEvent)
      → List OpenChannelRequest
      → SenseiBroadcaster
      → Outcome Stuck (List (OpenChannelRequest × Result)) × SenseiBroadcaster
  open_batch draws polls requests b = elim (initiate_all 0 (identified draws 0 requests)) [
    | ok requests_with_results ↦
        elim (wait_for_events passes 61 0 30000 500 polls 0
          (record { filters = filters requests_with_results; events = [] })) [
            | none ↦ (err stuck, b)
            | some events ↦ fund_batch requests_with_results events b
          ]
    | err e ↦ (err e, b)
    | panic ↦ (panic, b)
  ]

  unfoldable pub open_channel :
      (draws : ℕ → ℕ) (polls : ℕ → List SenseiEvent)
      → OpenChannelRequest
      → SenseiBroadcaster
      → Outcome Stuck Result × SenseiBroadcaster
  open_channel draws polls request b =
      let (responses, b') = open_batch draws polls (request ∷ []) b in
      (
        elim responses [
          | ok results ↦ elim results [ [] ↦ panic | (_, result) ∷ _ ↦ ok result ]
          | err e ↦ err e
          | panic ↦ panic
        ],
        b',
      )
