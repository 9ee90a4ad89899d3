-- ===== src/Grpc/Echo.antt =====
-- The requests that a response to `OpenChannels` repeats (src/grpc/adaptor.rs).
use sensei.Prelude.{
  ℕ, ◌%◌, ◌^◌, ◌<◌, ◌≡◌, refl, sym, ap, ◌∙◌, Option, none, some, List, [], ◌∷◌, map, Text, Outcome,
  ok, err, panic, arith, All,
}
use mathlib.Core.Option
use sensei.State.{run_ok}
use sensei.Transport.{Nodes, Server}
use sensei.Grpc.Messages.{OpenChannelRequest}
use sensei.Grpc.Calls
use sensei.Grpc.Requests.{from_open_channel, from_open_channels}
use sensei.Grpc.Contents.{open_channel_message}
use sensei.Grpc.Replies.{to_open_channels}
use sensei.Grpc.Methods.{Method, into}
use sensei.Grpc.Service.{authenticated_request, converted, method}
use sensei.Grpc.Fits.{AnswersInKind, authenticated_request-Answers}

-- A request with the lower 16 bits of its delta.
abbrev pub with_short_delta : OpenChannelRequest → OpenChannelRequest
with_short_delta r = record r {
  cltv_expiry_delta = Option.map (λ (delta : ℕ). delta % 2 ^ 16) r.cltv_expiry_delta;
}

-- A delta, if there is one, of 16 bits.
abbrev pub HasShortDelta : OpenChannelRequest → Type 0
HasShortDelta r = (delta : ℕ) → r.cltv_expiry_delta ≡ some delta → delta < 2 ^ 16

repeated :
    (rs : List OpenChannelRequest)
    → map open_channel_message (map from_open_channel rs) ≡ map with_short_delta rs
unfolding open_channel_message from_open_channel
repeated [] = refl
repeated (r ∷ rs) = ap (λ xs. with_short_delta r ∷ xs) (repeated rs)

short_delta :
    (d : Option ℕ)
    → ((delta : ℕ) → d ≡ some delta → delta < 2 ^ 16)
    → Option.map (λ (delta : ℕ). delta % 2 ^ 16) d ≡ d
short_delta none h = refl
short_delta (some delta) h =
    let small = h delta refl in ap (λ (x : ℕ). some x) (omega (arith, small))

unchanged : (rs : List OpenChannelRequest) → All HasShortDelta rs → map with_short_delta rs ≡ rs
unchanged [] h = refl
unchanged (r ∷ rs) h =
    let first : with_short_delta r ≡ r =
      ap (λ d. record r { cltv_expiry_delta = d }) (short_delta r.cltv_expiry_delta h.0) in
    rw (unchanged rs h.1) (ap (λ x. x ∷ rs) first)

-- The requests in a message.
abbrev requests_of : {E : Type 0} → Outcome E Calls.OpenChannelsResponse → List OpenChannelRequest
requests_of (ok message) = message.requests
requests_of (err e) = []
requests_of panic = []

module _ {Handle Macaroon World : Type 0} (n : Nodes Handle Macaroon World)
    (law : AnswersInKind n) where
  -- For nodes that answer each request in its own kind: the answer to `OpenChannels` repeats the requests
  -- with the lower 16 bits of their deltas, which are the requests themselves where each delta has no
  -- more bits.
  pub method-repeats :
      (metadata : Option (Option Text)) (request : Calls.OpenChannelsRequest)
      (s s' : Server Handle World) (message : Calls.OpenChannelsResponse)
      → method n Method.open_channels metadata request s ≡ (ok message, s')
      → (message.requests ≡ map with_short_delta request.requests)
        × (All HasShortDelta request.requests → message.requests ≡ request.requests)
  unfolding method from_open_channels to_open_channels
  method-repeats metadata request s s' message e =
      let (r, (t, (answered, last))) =
        run_ok (authenticated_request n metadata (into Method.open_channels request))
          (converted Method.open_channels) s s' message e in
      let (results, kind) =
        authenticated_request-Answers n law metadata (into Method.open_channels request) s t r
          answered in
      let same : message.requests ≡ map with_short_delta request.requests =
        sym (ap (λ x. requests_of x.0) last)
        ∙ ap (λ y. requests_of (converted Method.open_channels y t).0) kind
        ∙ repeated request.requests in
      (same, λ short. same ∙ unchanged request.requests short)
