-- ===== src/Channels/Funding.antt =====
-- What a batch of channels ends in: the funding transaction, and when it goes out.
use sensei.Prelude.{
  none, false, ◌||◌, ◌⊎◌, Bool, Bool-cases, Text, subst, ◌+◌, ℕ, zero, suc, ◌≤◌, ◌≡◌, refl, sym, ap,
  ◌∙◌, true, some, List, [], ◌∷◌, ◌++◌, map, Outcome, ok, err, panic, bind_ok, ◌>>=◌, ◌==◌, any,
  find, All, unwrap_or, arith, Option-cases, inl, inr, if◌then◌else◌,
}
use sensei.Sql.Laws.{any-find}
use sensei.Wallet.Types.{Stored, Transaction}
use sensei.Wallet.Store
use sensei.Broadcaster.{SenseiBroadcaster, set_debounce}
use sensei.Events.{FundingReady}
use sensei.Channels.Types.{
  SenseiEvent, funding_ready, transaction_broadcast, OpenChannelRequest, Result, opened, refused,
  Stuck, Opening, ChannelOpener,
}
use sensei.Channels.Wait.{Waiting, filter_index, take_event, wait_for_events, drain}
use sensei.Channels.Rounds.{wait_for_events-answers, arrived, Answered}
use sensei.Channels.Open.{
  identified, answers, recipients, mark, channels_to_open, passes, filters, initiate_channel_open,
  initiate_all, fund_one, fund, fund_batch, open_batch,
}

-- How many channels the node reports as opened.
abbrev pub opened_count : List (OpenChannelRequest × Result) → ℕ
opened_count [] = 0
opened_count ((request, opened tcid) ∷ rest) = suc (opened_count rest)
opened_count ((request, refused e) ∷ rest) = opened_count rest

abbrev pub IsIn : {A : Type 0} → A → List A → Type 0
IsIn a [] = ⊥
IsIn a (x ∷ xs) = (x ≡ a) ⊎ IsIn a xs

-- Whether one of the events asks for the funding of the channel with this id.
abbrev pub came : ℕ → List SenseiEvent → Bool
came id [] = false
came id (funding_ready f ∷ events) = (f.user_channel_id == id) || came id events
came id (transaction_broadcast node_id txid ∷ events) = came id events

-- The channels that were started and whose event came.
abbrev pub asked_count : List SenseiEvent → List (OpenChannelRequest × Result) → ℕ
asked_count events [] = 0
asked_count events ((request, refused e) ∷ rest) = asked_count events rest
asked_count events ((request, opened tcid) ∷ rest) =
    (if came (unwrap_or 0 request.custom_id) events then 1 else 0) + asked_count events rest

any-came : (id : ℕ) (events : List SenseiEvent) → any (answers id) events ≡ came id events
any-came id [] = refl
any-came id (funding_ready f ∷ events) = ground (arith, any-came id events)
any-came id (transaction_broadcast node_id txid ∷ events) = ground (arith, any-came id events)

channels_to_open-mark :
    (events : List SenseiEvent) (started : List (OpenChannelRequest × Result))
    → channels_to_open (map (mark events) started) ≡ asked_count events started
channels_to_open-mark events [] = refl
channels_to_open-mark events ((request, refused e) ∷ rest) = channels_to_open-mark events rest
channels_to_open-mark events ((request, opened tcid) ∷ rest) =
    let id = unwrap_or 0 request.custom_id in
    elim (Option-cases (find (answers id) events)) [
      | inl missing ↦ ground (
        arith,
        missing,
        any-find (answers id) events,
        any-came id events,
        channels_to_open-mark events rest,
      )
      | inr (event, found) ↦ ground (
        arith,
        found,
        any-find (answers id) events,
        any-came id events,
        channels_to_open-mark events rest,
      )
    ]

find-IsIn :
    (id : ℕ) (events : List SenseiEvent) (event : SenseiEvent)
    → find (answers id) events ≡ some event
    → IsIn event events × (answers id event ≡ true)
find-IsIn id [] event found = absurd (ground (arith, found))
find-IsIn id (x ∷ events) event found = elim (Bool-cases (answers id x)) [
  | inl hit ↦
      let same : x ≡ event = ground (arith, hit, found) in
      (inl same, subst (λ y. answers id y ≡ true) same hit)
  | inr miss ↦
      let (there, hit) = find-IsIn id events event (ground (arith, miss, found)) in (inr there, hit)
]

IsIn-recipients :
    (f : FundingReady) (events : List SenseiEvent)
    → IsIn (funding_ready f) events
    → IsIn (f.output_script, f.channel_value_satoshis) (recipients events)
IsIn-recipients f [] none_there = absurd none_there
IsIn-recipients f (funding_ready g ∷ events) (inl same) =
    let same_event : g ≡ f = ground (arith, same) in
    inl (ap (λ (h : FundingReady). (h.output_script, h.channel_value_satoshis)) same_event)
IsIn-recipients f (funding_ready g ∷ events) (inr there) = inr (IsIn-recipients f events there)
IsIn-recipients f (transaction_broadcast node_id txid ∷ events) (inl same) =
    absurd (ground (arith, same))
IsIn-recipients f (transaction_broadcast node_id txid ∷ events) (inr there) =
    IsIn-recipients f events there

abbrev pub requested : List (OpenChannelRequest × Result) → List OpenChannelRequest
requested = map λ x. x.0

request-mark :
    (events : List SenseiEvent) (request : OpenChannelRequest) (result : Result)
    → (mark events (request, result)).request ≡ request
request-mark events request (refused e) = refl
request-mark events request (opened t) = ground arith

module _ (o : ChannelOpener) where
  -- What holds of a channel that is reported as opened, the `i`-th of its batch: an event asked for its
  -- funding, the event's output is one of those that were paid, and the Lightning library took the
  -- transaction for the channel and the event's peer.
  abbrev pub IsFunded : ℕ → List SenseiEvent → Transaction → OpenChannelRequest → Text → Type 0
  IsFunded i events tx request tcid =
      (f : FundingReady) × IsIn (funding_ready f) events
      × (f.user_channel_id ≡ unwrap_or 0 request.custom_id)
      × IsIn (f.output_script, f.channel_value_satoshis) (recipients events)
      × (o.funding_transaction_generated i tcid f.counterparty_node_id tx ≡ none)

  abbrev pub AreFunded :
      ℕ → List SenseiEvent → Transaction → List (OpenChannelRequest × Result) → Type 0
  AreFunded i events tx [] = Unit
  AreFunded i events tx ((request, opened tcid) ∷ rest) =
      IsFunded i events tx request tcid × AreFunded (suc i) events tx rest
  AreFunded i events tx ((request, refused e) ∷ rest) = AreFunded (suc i) events tx rest

  fund_one-IsFunded :
      (i : ℕ) (tx : Transaction) (events : List SenseiEvent) (request : OpenChannelRequest)
      (result : Result) (tcid : Text)
      → fund_one o i tx (mark events (request, result)) ≡ ok (opened tcid)
      → IsFunded i events tx request tcid
  unfolding fund_one
  fund_one-IsFunded i tx events request (refused e) tcid run = absurd (ground arith)
  fund_one-IsFunded i tx events request (opened t) tcid run =
      let id = unwrap_or 0 request.custom_id in
      elim (Option-cases (find (answers id) events)) [
        | inl missing ↦ absurd (ground (arith, missing))
        | inr (event, found) ↦ of_event event found
      ]
    where
      of_event :
          (event : SenseiEvent)
          → find (answers (unwrap_or 0 request.custom_id)) events ≡ some event
          → IsFunded i events tx request tcid
      of_event (transaction_broadcast node_id txid) found =
          absurd (ground (arith, (find-IsIn (unwrap_or 0 request.custom_id) events _ found).1))
      of_event (funding_ready f) found =
          let (there, hit) = find-IsIn (unwrap_or 0 request.custom_id) events _ found in
          elim (Option-cases (o.funding_transaction_generated i t f.counterparty_node_id tx)) [
            | inl taken ↦
                let same : t ≡ tcid = ground (arith, run, found, taken) in
                (
                  f,
                  there,
                  ground (arith, hit),
                  IsIn-recipients f events there,
                  subst (λ x. o.funding_transaction_generated i x f.counterparty_node_id tx ≡ none)
                      same taken,
                )
            | inr (e, refused_it) ↦ absurd (ground (arith, run, found, refused_it))
          ]

  AreFunded-cons :
      (i : ℕ) (tx : Transaction) (events : List SenseiEvent) (request : OpenChannelRequest)
      (result final : Result) (others : List (OpenChannelRequest × Result))
      → fund_one o i tx (mark events (request, result)) ≡ ok final
      → AreFunded (suc i) events tx others
      → AreFunded i events tx ((request, final) ∷ others)
  AreFunded-cons i tx events request result (opened tcid) others run rest =
      (fund_one-IsFunded i tx events request result tcid run, rest)
  AreFunded-cons i tx events request result (refused e) others run rest = rest

  opened_count-fund_one :
      (i : ℕ) (tx : Transaction) (c : Opening) (request : OpenChannelRequest) (final : Result)
      (others : List (OpenChannelRequest × Result)) (cs : List Opening)
      → fund_one o i tx c ≡ ok final
      → opened_count others ≤ channels_to_open cs
      → opened_count ((request, final) ∷ others) ≤ channels_to_open (c ∷ cs)
  unfolding fund_one
  opened_count-fund_one i tx c request (refused e) others cs one h = ground (arith, h)
  opened_count-fund_one i tx c request (opened t) others cs one h = ground (arith, one, h)

  fund-AreFunded :
      (i : ℕ) (tx : Transaction) (events : List SenseiEvent)
      (started results : List (OpenChannelRequest × Result))
      → fund o i tx (map (mark events) started) ≡ ok results
      → (requested results ≡ requested started)
        × AreFunded i events tx results
        × (opened_count results ≤ channels_to_open (map (mark events) started))
  unfolding fund
  fund-AreFunded i tx events [] results run =
      let none_left : [] ≡ results = ground (arith, run) in rw (← none_left) (refl, tt, omega arith)
  fund-AreFunded i tx events ((request, result) ∷ started) results run =
      let (final, one, run') =
        bind_ok (fund_one o i tx (mark events (request, result)))
          (λ final. fund o (suc i) tx (map (mark events) started) >>= λ others.
            ok (((mark events (request, result)).request, final) ∷ others))
          results run in
      let (others, rest, last) =
        bind_ok (fund o (suc i) tx (map (mark events) started))
          (λ others. ok (((mark events (request, result)).request, final) ∷ others)) results run' in
      let same : (request, final) ∷ others ≡ results =
        ap (λ r. (r, final) ∷ others) (sym (request-mark events request result))
        ∙ ground (arith, last) in
      let (same_requests, funded, at_most) = fund-AreFunded (suc i) tx events started others rest in
      rw (← same) (
        ap (λ rs. request ∷ rs) same_requests,
        AreFunded-cons i tx events request result final others one funded,
        opened_count-fund_one i tx (mark events (request, result)) request final others
            (map (mark events) started) one at_most,
      )

  requested-initiate_all :
      (i : ℕ) (requests : List OpenChannelRequest) (started : List (OpenChannelRequest × Result))
      → initiate_all o i requests ≡ ok started
      → requested started ≡ requests
  unfolding initiate_all
  requested-initiate_all i [] started run =
      let none_left : [] ≡ started = ground (arith, run) in rw (← none_left) refl
  requested-initiate_all i (request ∷ requests) started run =
      let (result, one, run') =
        bind_ok (initiate_channel_open o i request)
          (λ result. initiate_all o (suc i) requests >>= λ rest. ok ((request, result) ∷ rest))
          started run in
      let (rest, others, last) =
        bind_ok (initiate_all o (suc i) requests) (λ rest. ok ((request, result) ∷ rest)) started
          run' in
      let same : (request, result) ∷ rest ≡ started = ground (arith, last) in
      rw (← same) (ap (λ rs. request ∷ rs) (requested-initiate_all (suc i) requests rest others))

  -- The stages of a batch that ends in results: what the requests for channels gave, the events that
  -- were waited for (one pass over those that arrived, each for a filter of its own), the transaction,
  -- and the number of channels that were started and whose event came (`asked`).
  pub record Ran (draws : ℕ → ℕ) (polls : ℕ → List SenseiEvent) (requests : List OpenChannelRequest)
      (b : SenseiBroadcaster) (results : List (OpenChannelRequest × Result)) : Type 0 where
    pub started : List (OpenChannelRequest × Result)
    pub events : List SenseiEvent
    pub funding_tx : Transaction
    pub wallet : Stored
    pub starts : initiate_all o 0 (identified draws 0 requests) ≡ ok started
    pub asked : ℕ
    pub asks : asked ≡ asked_count events started
    pub taken :
        events
        ≡ (drain
            (passes o)
            (arrived polls 0 60)
            (record { filters = filters o started; events = [] })).1.events
    pub answered : Answered (passes o) (filters o started) events
    pub finishes : o.finish (recipients events) b.wallet ≡ (ok funding_tx, wallet)
    pub funds : fund o 0 funding_tx (map (mark events) started) ≡ ok results
    pub leaves :
        (open_batch o draws polls requests b).1
        ≡ set_debounce funding_tx.txid asked (record b { wallet = wallet })

  open_batch-Ran :
      (draws : ℕ → ℕ) (polls : ℕ → List SenseiEvent) (requests : List OpenChannelRequest)
      (b : SenseiBroadcaster) (results : List (OpenChannelRequest × Result))
      → (open_batch o draws polls requests b).0 ≡ ok results
      → Ran draws polls requests b results
  unfolding open_batch fund_batch
  open_batch-Ran draws polls requests b results run =
      go (initiate_all o 0 (identified draws 0 requests)) refl
    where
      built :
          (started : List (OpenChannelRequest × Result)) (events : List SenseiEvent)
          (r : Outcome Store.Error Transaction × Stored)
          → initiate_all o 0 (identified draws 0 requests) ≡ ok started
          → wait_for_events
              (passes o)
              61
              0
              30000
              500
              polls
              0
              (record { filters = filters o started; events = [] })
            ≡ some events
          → events
            ≡ (drain
                (passes o)
                (arrived polls 0 60)
                (record { filters = filters o started; events = [] })).1.events
          → Answered (passes o) (filters o started) events
          → o.finish (recipients events) b.wallet ≡ r
          → Ran draws polls requests b results
      built started events (ok tx, wallet) starts waits taken matched finishes = record {
        started = started;
        events = events;
        funding_tx = tx;
        wallet = wallet;
        starts = starts;
        asked = asked_count events started;
        asks = refl;
        taken = taken;
        answered = matched;
        finishes = finishes;
        funds = ground (arith, run, starts, waits, finishes);
        leaves = ground (arith, starts, waits, finishes, channels_to_open-mark events started);
      }
      built started events (err e, wallet) starts waits taken matched finishes =
          absurd (ground (arith, run, starts, waits, finishes))
      built started events (panic, wallet) starts waits taken matched finishes =
          absurd (ground (arith, run, starts, waits, finishes))

      go :
          (r : Outcome Stuck (List (OpenChannelRequest × Result)))
          → initiate_all o 0 (identified draws 0 requests) ≡ r
          → Ran draws polls requests b results
      go (ok started) starts =
          let (events, waits, taken, matched) =
            wait_for_events-answers (passes o) 60 61 500 30000 polls (filters o started)
              (omega arith) (omega arith) (omega arith) (omega arith) in
          built started events (o.finish (recipients events) b.wallet) starts waits taken matched
            refl
      go (err e) starts = absurd (ground (arith, run, starts))
      go panic starts = absurd (ground (arith, run, starts))

  -- For a batch that `open_batch` answers with results: there is one for each request, in their order;
  -- the events are those that one pass over the events that arrived in time takes, and one transaction
  -- was built for their outputs; for each channel that is reported as opened there is an event that asked
  -- for it, whose output is among those, and the Lightning library took this transaction for it.
  pub open_batch-pays :
      (draws : ℕ → ℕ) (polls : ℕ → List SenseiEvent) (requests : List OpenChannelRequest)
      (b : SenseiBroadcaster) (results : List (OpenChannelRequest × Result))
      → (open_batch o draws polls requests b).0 ≡ ok results
      → (requested results ≡ identified draws 0 requests)
        × ((r : Ran draws polls requests b results) × AreFunded 0 r.events r.funding_tx results)
  open_batch-pays draws polls requests b results run =
      let r = open_batch-Ran draws polls requests b results run in
      let (same, funded, _) = fund-AreFunded 0 r.funding_tx r.events r.started results r.funds in
      (
        same ∙ requested-initiate_all 0 (identified draws 0 requests) r.started r.starts,
        (r, funded),
      )

  -- None of these filters lets the event pass.
  abbrev pub IsUnasked : List ℕ → SenseiEvent → Type 0
  IsUnasked fs event = any (λ id. passes o id event) fs ≡ false

  unasked_index :
      (fs : List ℕ) (event : SenseiEvent)
      → IsUnasked fs event
      → filter_index (passes o) fs event ≡ none
  unfolding filter_index
  unasked_index [] event unasked = refl
  unasked_index (id ∷ fs) event unasked = ground (arith, unasked, unasked_index fs event)

  drain-unasked :
      (events : List SenseiEvent) (w : Waiting ℕ SenseiEvent)
      → All (IsUnasked w.filters) events
      → (drain (passes o) events w).1.events ≡ w.events
  unfolding drain take_event
  drain-unasked [] w unasked = refl
  drain-unasked (event ∷ events) w unasked =
      ground (arith, unasked_index w.filters event unasked.0, drain-unasked events w unasked.1)

  All-append :
      {A : Type 0} (P : A → Type 0) (xs ys : List A) → All P xs → All P ys → All P (xs ++ ys)
  All-append P [] ys h k = k
  All-append P (x ∷ xs) ys h k = (h.0, All-append P xs ys h.1 k)

  arrived-IsUnasked :
      (fs : List ℕ) (polls : ℕ → List SenseiEvent) (round n : ℕ)
      → ((i : ℕ) → All (IsUnasked fs) (polls i))
      → All (IsUnasked fs) (arrived polls round n)
  arrived-IsUnasked fs polls round zero quiet = tt
  arrived-IsUnasked fs polls round (suc n) quiet =
      All-append (IsUnasked fs) (polls round) (arrived polls (suc round) n) (quiet round)
        (arrived-IsUnasked fs polls (suc round) n quiet)

  -- For requests that could be made, of which none is answered by an event in time, whatever other
  -- events arrive, and a wallet that builds no transaction without recipients: `open_batch` panics, and
  -- no request gets a result.
  pub open_batch-unanswered :
      (draws : ℕ → ℕ) (polls : ℕ → List SenseiEvent) (requests : List OpenChannelRequest)
      (b : SenseiBroadcaster) (started : List (OpenChannelRequest × Result)) (e : Store.Error)
      → initiate_all o 0 (identified draws 0 requests) ≡ ok started
      → ((i : ℕ) → All (IsUnasked (filters o started)) (polls i))
      → (o.finish [] b.wallet).0 ≡ err e
      → (open_batch o draws polls requests b).0 ≡ panic
  unfolding open_batch fund_batch
  open_batch-unanswered draws polls requests b started e starts quiet fails =
      let (events, waits, taken, _) =
        wait_for_events-answers (passes o) 60 61 500 30000 polls (filters o started) (omega arith)
          (omega arith) (omega arith) (omega arith) in
      let none_came : events ≡ [] =
        taken
        ∙ drain-unasked (arrived polls 0 60) (record { filters = filters o started; events = [] })
            (arrived-IsUnasked (filters o started) polls 0 60 quiet) in
      let nobody : recipients events ≡ [] = ap recipients none_came in
      let unbuilt : (o.finish (recipients events) b.wallet).0 ≡ err e =
        ap (λ rs. (o.finish rs b.wallet).0) nobody ∙ fails in
      ground (arith, starts, waits, unbuilt)
