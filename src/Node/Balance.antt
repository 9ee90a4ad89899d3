-- ===== src/Node/Balance.antt =====
-- The sums of a balance (`NodeRequest::GetBalance` in senseicore/src/node.rs).
use sensei.Prelude.{
  ℕ, ◌+◌, ◌≤◌, ◌<◌, ◌^◌, ◌≡◌, ◌∙◌, List, [], ◌∷◌, ok, arith, Bool-cases, inl, inr, if◌then◌else◌,
}
use sensei.Events.{NodeState}
use sensei.Node.Types.{NodeRequest, NodeResponse, ChannelDetails, Balance}
use sensei.Node.Queries.{LightningNode, get_balance, add_channel, add_channels, no_channels}
use sensei.Node.Call.{call}

abbrev pub sum_of : (ChannelDetails → ℕ) → List ChannelDetails → ℕ
sum_of f [] = 0
sum_of f (c ∷ cs) = f c + sum_of f cs

-- An amount where the channel is usable.
abbrev pub if_usable : (ChannelDetails → ℕ) → ChannelDetails → ℕ
if_usable f c = if c.is_usable then f c else 0

sum_of-le :
    (f : ChannelDetails → ℕ) (cs : List ChannelDetails) → sum_of (if_usable f) cs ≤ sum_of f cs
sum_of-le f [] = omega arith
sum_of-le f (c ∷ cs) = elim (Bool-cases c.is_usable) [
  | inl usable ↦ rw usable (omega (arith, sum_of-le f cs))
  | inr closed ↦ rw closed (omega (arith, sum_of-le f cs))
]

-- A balance with the exact sums added.
abbrev pub with_sums : Balance → List ChannelDetails → Balance
with_sums b cs = record b {
  channel_balance_msats = b.channel_balance_msats + sum_of (λ c. c.balance_msat) cs;
  channel_outbound_capacity_msats =
      b.channel_outbound_capacity_msats + sum_of (λ c. c.outbound_capacity_msat) cs;
  channel_inbound_capacity_msats =
      b.channel_inbound_capacity_msats + sum_of (λ c. c.inbound_capacity_msat) cs;
  usable_channel_outbound_capacity_msats =
      b.usable_channel_outbound_capacity_msats
      + sum_of (if_usable (λ c. c.outbound_capacity_msat)) cs;
  usable_channel_inbound_capacity_msats =
      b.usable_channel_inbound_capacity_msats
      + sum_of (if_usable (λ c. c.inbound_capacity_msat)) cs;
}

-- No sum reaches the end of `u64`.
record Fits (b : Balance) (cs : List ChannelDetails) : Type 0 where
  pub balance : b.channel_balance_msats + sum_of (λ c. c.balance_msat) cs < 2 ^ 64
  pub outbound :
      b.channel_outbound_capacity_msats + sum_of (λ c. c.outbound_capacity_msat) cs < 2 ^ 64
  pub inbound : b.channel_inbound_capacity_msats + sum_of (λ c. c.inbound_capacity_msat) cs < 2 ^ 64
  pub usable_outbound : b.usable_channel_outbound_capacity_msats ≤ b.channel_outbound_capacity_msats
  pub usable_inbound : b.usable_channel_inbound_capacity_msats ≤ b.channel_inbound_capacity_msats

step :
    (b : Balance) (c : ChannelDetails) (cs : List ChannelDetails)
    → Fits b (c ∷ cs)
    → Fits (add_channel b c) cs × (with_sums (add_channel b c) cs ≡ with_sums b (c ∷ cs))
unfolding add_channel
step b c cs h = elim (Bool-cases c.is_usable) [
  | inl usable ↦ rw (usable) (ground arith)
  | inr closed ↦ rw (closed) (ground arith)
]

add_channels-with_sums :
    (b : Balance) (cs : List ChannelDetails) → Fits b cs → add_channels b cs ≡ with_sums b cs
unfolding add_channels
add_channels-with_sums b [] h = ground arith
add_channels-with_sums b (c ∷ cs) h =
    let (fits, same) = step b c cs h in add_channels-with_sums (add_channel b c) cs fits ∙ same

module _ (n : LightningNode) where
  -- For a wallet whose balance can be read, and channels whose balances, and whose outbound and inbound
  -- capacities, stay below 2^64 in sum: `GetBalance` answers with these sums, and with the capacities
  -- of the usable channels alone, which are at most those of all.
  pub call-get_balance :
      (st : NodeState) (sats : ℕ)
      → n.get_balance st.broadcaster.wallet ≡ ok sats
      → sum_of (λ c. c.balance_msat) n.channels < 2 ^ 64
      → sum_of (λ c. c.outbound_capacity_msat) n.channels < 2 ^ 64
      → sum_of (λ c. c.inbound_capacity_msat) n.channels < 2 ^ 64
      → let outbound = sum_of (λ c. c.outbound_capacity_msat) n.channels in
        let inbound = sum_of (λ c. c.inbound_capacity_msat) n.channels in
        let usable_outbound = sum_of (if_usable (λ c. c.outbound_capacity_msat)) n.channels in
        let usable_inbound = sum_of (if_usable (λ c. c.inbound_capacity_msat)) n.channels in
        let b : Balance = record {
          onchain_balance_sats = sats;
          channel_balance_msats = sum_of (λ c. c.balance_msat) n.channels;
          channel_outbound_capacity_msats = outbound;
          channel_inbound_capacity_msats = inbound;
          usable_channel_outbound_capacity_msats = usable_outbound;
          usable_channel_inbound_capacity_msats = usable_inbound;
        } in
        (call n NodeRequest.get_balance st ≡ (ok (NodeResponse.balance b), st))
        × ((usable_outbound ≤ outbound) × (usable_inbound ≤ inbound))
  unfolding call get_balance
  call-get_balance st sats read small_balance small_out small_in =
      let fits : Fits (no_channels sats) n.channels = record {
        balance = omega arith;
        outbound = omega arith;
        inbound = omega arith;
        usable_outbound = omega arith;
        usable_inbound = omega arith;
      } in
      let sums = add_channels-with_sums (no_channels sats) n.channels fits in
      (
        ground (arith, read, sums),
        (
          sum_of-le (λ c. c.outbound_capacity_msat) n.channels,
          sum_of-le (λ c. c.inbound_capacity_msat) n.channels,
        ),
      )
