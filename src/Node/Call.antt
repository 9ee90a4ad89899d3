-- ===== src/Node/Call.antt =====
-- `LightningNode::call` of senseicore/src/node.rs: the requests to a node.
use sensei.Prelude.{
  ℕ, zero, suc, ◌==◌, Bool, true, false, none, some, List, [], ◌∷◌, map, Text, Outcome, ok, err,
  panic, length, if◌then◌else◌,
}
use sensei.Text.{codes}
use sensei.Hex.{to_vec, hex_str, to_compressed_pubkey}
use sensei.State.{◌>>=◌, ◌>>◌, pure, lift}
use sensei.Paging
use sensei.Paging.{PaginationRequest, PaginationResponse, Channel}
use sensei.Listings
use sensei.Listings.{PaymentsFilter}
use sensei.Payments
use sensei.Payments.{Payments, PaymentError, PaymentRow, Invoice, local_invoice}
use sensei.Peers
use sensei.Peers.{Peers, PeerRow}
use sensei.Wallet.Types.{TransactionDetails}
use sensei.Connect.{parse_peer_info, connected_to_peer}
use sensei.Channels.Types.{
  OpenChannelRequest, OpenError, ldk_api, funding_generation_never_happened, Result, opened,
  refused,
}
use sensei.Channels.Open.{open_batch}
use sensei.Node.Types.{
  NodeRequest, NodeResponse, NodeRequestError, sensei_error, bdk_error, io_error, OpenChannelResult,
  Ending, failed, hangs,
}
use sensei.Node.Queries.{
  LightningNode, Serving, raised, on_wallet, reading, listed_channel, get_balance, close, node_info,
  list_peers, list_unspent, num_known_edge_policies, connect_to_peer,
}

-- A call on the payments, or on the peers, of the node.
abbrev pub with_payments : {A : Type 0} → Payments A → Serving A
with_payments m st =
    let (r, rows) = m st.payments in raised sensei_error r (record st { payments = rows })

abbrev pub with_peers : {A : Type 0} → Peers A → Serving A
with_peers m st = let (r, rows) = m st.peers in raised sensei_error r (record st { peers = rows })

abbrev error_text : OpenError → Text
error_text (ldk_api text) = text
error_text funding_generation_never_happened = codes "funding generation for request never happened"

-- The part of a response that tells of one channel.
unfoldable pub open_channel_result : OpenChannelRequest × Result → OpenChannelResult
open_channel_result (request, opened temp_channel_id) = record {
  error = false;
  error_message = none;
  temp_channel_id = some (hex_str temp_channel_id);
}
open_channel_result (request, refused e) = record {
  error = true;
  error_message = some (error_text e);
  temp_channel_id = none;
}

abbrev pub zeros : ℕ → Text
zeros zero = []
zeros (suc k) = 0 ∷ zeros k

-- The id of a channel from its digits: zeros where they are none, and a panic in `copy_from_slice` where
-- they are not 32 bytes.
unfoldable pub channel_id_bytes : Text → Outcome (Ending NodeRequestError) Text
channel_id_bytes channel_id = elim (to_vec channel_id) [
  | none ↦ ok (zeros 32)
  | some bytes ↦ if length bytes == 32 then ok bytes else panic
]

module _ (n : LightningNode) where
  unfoldable pub open_channels :
      List OpenChannelRequest → Serving (List (OpenChannelRequest × Result))
  open_channels requests st =
      let (r, b) = open_batch n.opener n.draws n.polls requests st.broadcaster in
      (
        elim r [ ok results ↦ ok results | err e ↦ err hangs | panic ↦ panic ],
        record st { broadcaster = b },
      )

  abbrev pub parsed_invoice : Text → Serving Invoice
  parsed_invoice invoice =
      lift (elim (n.parse_invoice invoice) [ none ↦ err (failed sensei_error) | some i ↦ ok i ])

  abbrev pub signed : Text → Serving Text
  signed message = lift (elim (n.sign message) [ none ↦ err (failed sensei_error) | some s ↦ ok s ])

  abbrev pub parsed_dest : Text → Serving Text
  parsed_dest dest_pubkey = lift (elim (to_compressed_pubkey n.opener.from_slice dest_pubkey) [
    | none ↦ err (failed sensei_error)
    | some key ↦ ok key
  ])

  -- The steps before the responses of `SendPayment`, `Keysend` and `CloseChannel`.
  unfoldable pub pay : Text → Serving (Unit {0})
  pay invoice = do
    i ← parsed_invoice invoice
    with_payments (Payments.send_payment n.payment n.id (n.pay_invoice i) i)

  unfoldable pub pay_key : Text → ℕ → Serving (Unit {0})
  pay_key dest_pubkey amt_msat = do
    pubkey ← parsed_dest dest_pubkey
    with_payments (
        Payments.keysend n.payment n.id (n.pay_pubkey pubkey amt_msat) n.preimage n.payment_hash
          amt_msat)

  unfoldable pub close_by_id : Text → Bool → Serving (Unit {0})
  close_by_id channel_id force = do bytes ← lift (channel_id_bytes channel_id); close n bytes force

  unfoldable pub connect : Text → Serving (Unit {0})
  connect node_connection_string = do
    (pubkey, addr) ←
        raised io_error
          (parse_peer_info n.opener.from_slice n.opener.network node_connection_string)
    elim (connected_to_peer pubkey n.peer_node_ids) [
      | true ↦ pure tt
      | false ↦ lift (connect_to_peer n pubkey addr)
    ]

  unfoldable pub list_channels : PaginationRequest → Serving (List Channel × PaginationResponse)
  list_channels pagination =
      raised {E = NodeRequestError} sensei_error
        (Paging.list_channels (map (listed_channel n) n.channels) pagination)

  unfoldable pub list_transactions :
      PaginationRequest → Serving (List TransactionDetails × PaginationResponse)
  list_transactions pagination = do
    found ← on_wallet sensei_error (reading n.list_transactions)
    raised {E = NodeRequestError} sensei_error
        (Paging.list_transactions n.show_txid found pagination)

  unfoldable pub list_payments :
      PaginationRequest → PaymentsFilter → Serving (List PaymentRow × PaginationResponse)
  list_payments pagination filter st =
      raised sensei_error
        (Listings.list_payments n.like n.payment_pages n.id pagination filter st.payments) st

  unfoldable pub list_known_peers : PaginationRequest → Serving (List PeerRow × PaginationResponse)
  list_known_peers pagination st =
      raised sensei_error (Listings.list_peers n.like n.peer_pages n.id pagination st.peers) st

  unfoldable pub call : NodeRequest → Serving NodeResponse
  call (NodeRequest.start_node passphrase) = pure NodeResponse.started
  call NodeRequest.stop_node = pure NodeResponse.stopped
  call NodeRequest.get_unused_address = do
    address ← on_wallet bdk_error n.get_address
    pure (NodeResponse.unused_address address)
  call NodeRequest.get_balance = do b ← get_balance n; pure (NodeResponse.balance b)
  call (NodeRequest.open_channels requests) = do
    responses ← open_channels requests
    pure (NodeResponse.opened_channels requests (map open_channel_result responses))
  call (NodeRequest.send_payment invoice) = do pay invoice; pure NodeResponse.sent_payment
  call (NodeRequest.decode_invoice invoice) = do
    i ← parsed_invoice invoice
    pure (NodeResponse.decoded_invoice (local_invoice i))
  call (NodeRequest.keysend dest_pubkey amt_msat) = do
    pay_key dest_pubkey amt_msat
    pure NodeResponse.sent_keysend
  call (NodeRequest.get_invoice amt_msat description) = do
    i ← with_payments (
        Payments.get_invoice n.payment n.id (n.create_invoice amt_msat description) amt_msat
          description)
    pure (NodeResponse.invoice i.text)
  call (NodeRequest.label_payment label payment_hash) = do
    with_payments (Payments.label_payment n.payment n.id payment_hash label)
    pure NodeResponse.labelled_payment
  call (NodeRequest.delete_payment payment_hash) = do
    with_payments (Payments.delete_payment n.payment n.id payment_hash)
    pure NodeResponse.deleted_payment
  call (NodeRequest.connect_peer node_connection_string) = do
    connect node_connection_string
    pure NodeResponse.connected_peer
  call (NodeRequest.list_channels pagination) = do
    (channels, response) ← list_channels pagination
    pure (NodeResponse.channels channels response)
  call (NodeRequest.list_transactions pagination) = do
    (transactions, response) ← list_transactions pagination
    pure (NodeResponse.transactions transactions response)
  call (NodeRequest.list_payments pagination filter) = do
    (payments, response) ← list_payments pagination filter
    pure (NodeResponse.payments payments response)
  call (NodeRequest.close_channel channel_id force) = do
    close_by_id channel_id force
    pure NodeResponse.closed_channel
  call NodeRequest.node_info = pure (NodeResponse.info (node_info n))
  call NodeRequest.list_peers = pure (NodeResponse.peers (list_peers n))
  call (NodeRequest.sign_message message) = do s ← signed message; pure (NodeResponse.signature s)
  call (NodeRequest.verify_message message signature) =
      pure (NodeResponse.verified (n.verify message signature) n.our_node_id)
  call NodeRequest.list_unspent = do utxos ← list_unspent n; pure (NodeResponse.unspent utxos)
  call NodeRequest.network_graph_info = pure (
      NodeResponse.graph_info (length n.graph_channels) n.graph_nodes
        (num_known_edge_policies n.graph_channels))
  call (NodeRequest.list_known_peers pagination) = do
    (peers, response) ← list_known_peers pagination
    pure (NodeResponse.known_peers peers response)
  call (NodeRequest.add_known_peer pubkey label zero_conf) = do
    with_peers (Peers.add_known_peer n.peer n.id pubkey label zero_conf)
    pure NodeResponse.added_known_peer
  call (NodeRequest.remove_known_peer pubkey) = do
    with_peers (Peers.delete_peer n.peer n.id pubkey)
    pure NodeResponse.removed_known_peer
