-- ===== src/Node/Answers.antt =====
-- What kind of response a request to a node gets (senseicore/src/node.rs).
use sensei.Prelude.{arith, ℕ, ◌≡◌, Bool, List, Text, ok, map, length}
use sensei.State.{then_pure}
use sensei.Paging.{PaginationResponse, Channel}
use sensei.Payments
use sensei.Payments.{PaymentRow, LocalInvoice, local_invoice}
use sensei.Peers
use sensei.Peers.{PeerRow}
use sensei.Wallet.Types.{TransactionDetails}
use sensei.Events.{NodeState}
use sensei.Node.Types.{NodeRequest, NodeResponse, NodeInfo, Balance, Peer, Utxo, OpenChannelResult}
use sensei.Node.Queries.{
  LightningNode, get_balance, list_unspent, node_info, list_peers, num_known_edge_policies,
  on_wallet,
}
use sensei.Node.Call.{
  call, open_channels, open_channel_result, connect, list_channels, list_transactions,
  list_payments, list_known_peers, with_payments, with_peers, parsed_invoice, signed, pay, pay_key,
  close_by_id,
}

-- The responses that fit a request: those of its own kind, and for channels those that repeat the
-- requests.
abbrev pub Answers : NodeRequest → NodeResponse → Type 0
Answers (NodeRequest.start_node passphrase) r = r ≡ NodeResponse.started
Answers NodeRequest.stop_node r = r ≡ NodeResponse.stopped
Answers NodeRequest.get_unused_address r = (a : Text) × (r ≡ NodeResponse.unused_address a)
Answers NodeRequest.get_balance r = (b : Balance) × (r ≡ NodeResponse.balance b)
Answers (NodeRequest.open_channels requests) r =
    (results : List OpenChannelResult) × (r ≡ NodeResponse.opened_channels requests results)
Answers (NodeRequest.send_payment invoice) r = r ≡ NodeResponse.sent_payment
Answers (NodeRequest.keysend dest amt) r = r ≡ NodeResponse.sent_keysend
Answers (NodeRequest.decode_invoice invoice) r =
    (i : LocalInvoice) × (r ≡ NodeResponse.decoded_invoice i)
Answers (NodeRequest.get_invoice amt description) r = (i : Text) × (r ≡ NodeResponse.invoice i)
Answers (NodeRequest.label_payment label hash) r = r ≡ NodeResponse.labelled_payment
Answers (NodeRequest.delete_payment hash) r = r ≡ NodeResponse.deleted_payment
Answers (NodeRequest.connect_peer connection) r = r ≡ NodeResponse.connected_peer
Answers (NodeRequest.list_channels p) r =
    (page : List Channel × PaginationResponse) × (r ≡ NodeResponse.channels page.0 page.1)
Answers (NodeRequest.list_payments p filter) r =
    (page : List PaymentRow × PaginationResponse) × (r ≡ NodeResponse.payments page.0 page.1)
Answers (NodeRequest.list_transactions p) r =
    (page : List TransactionDetails × PaginationResponse) × (r
      ≡ NodeResponse.transactions page.0 page.1)
Answers (NodeRequest.close_channel id force) r = r ≡ NodeResponse.closed_channel
Answers NodeRequest.node_info r = (i : NodeInfo) × (r ≡ NodeResponse.info i)
Answers NodeRequest.list_peers r = (ps : List Peer) × (r ≡ NodeResponse.peers ps)
Answers (NodeRequest.sign_message message) r = (s : Text) × (r ≡ NodeResponse.signature s)
Answers (NodeRequest.verify_message message s) r =
    (v : Bool × Text) × (r ≡ NodeResponse.verified v.0 v.1)
Answers NodeRequest.list_unspent r = (us : List Utxo) × (r ≡ NodeResponse.unspent us)
Answers NodeRequest.network_graph_info r =
    (g : ℕ × (ℕ × ℕ)) × (r ≡ NodeResponse.graph_info g.0 g.1.0 g.1.1)
Answers (NodeRequest.list_known_peers p) r =
    (page : List PeerRow × PaginationResponse) × (r ≡ NodeResponse.known_peers page.0 page.1)
Answers (NodeRequest.add_known_peer pubkey label zero_conf) r = r ≡ NodeResponse.added_known_peer
Answers (NodeRequest.remove_known_peer pubkey) r = r ≡ NodeResponse.removed_known_peer

module _ (n : LightningNode) (s s' : NodeState) (r : NodeResponse) where
  -- A request that a node answers without an error gets a response of its own kind.
  pub call-Answers : (request : NodeRequest) → call n request s ≡ (ok r, s') → Answers request r
  unfolding call
  call-Answers (NodeRequest.start_node passphrase) e = ground (arith, e)
  call-Answers NodeRequest.stop_node e = ground (arith, e)
  call-Answers NodeRequest.get_unused_address e = then_pure (on_wallet _ n.get_address) _ s s' r e
  call-Answers NodeRequest.get_balance e = then_pure (get_balance n) _ s s' r e
  call-Answers (NodeRequest.open_channels requests) e =
      let (results, eq) = then_pure (open_channels n requests) _ s s' r e in
      (map open_channel_result results, eq)
  call-Answers (NodeRequest.send_payment invoice) e = (then_pure (pay n invoice) _ s s' r e).1
  call-Answers (NodeRequest.keysend dest amt) e = (then_pure (pay_key n dest amt) _ s s' r e).1
  call-Answers (NodeRequest.decode_invoice invoice) e =
      let (i, eq) = then_pure (parsed_invoice n invoice) _ s s' r e in (local_invoice i, eq)
  call-Answers (NodeRequest.get_invoice amt description) e =
      let (i, eq) =
        then_pure
          (with_payments (
            Payments.get_invoice n.payment n.id (n.create_invoice amt description) amt description))
          _ s s' r e in
      (i.text, eq)
  call-Answers (NodeRequest.label_payment label hash) e =
      (then_pure (with_payments (Payments.label_payment n.payment n.id hash label)) _ s s' r e).1
  call-Answers (NodeRequest.delete_payment hash) e =
      (then_pure (with_payments (Payments.delete_payment n.payment n.id hash)) _ s s' r e).1
  call-Answers (NodeRequest.connect_peer connection) e =
      (then_pure (connect n connection) _ s s' r e).1
  call-Answers (NodeRequest.list_channels p) e = then_pure (list_channels n p) _ s s' r e
  call-Answers (NodeRequest.list_payments p filter) e =
      then_pure (list_payments n p filter) _ s s' r e
  call-Answers (NodeRequest.list_transactions p) e = then_pure (list_transactions n p) _ s s' r e
  call-Answers (NodeRequest.close_channel id force) e =
      (then_pure (close_by_id n id force) _ s s' r e).1
  call-Answers NodeRequest.node_info e = (node_info n, ground (arith, e))
  call-Answers NodeRequest.list_peers e = (list_peers n, ground (arith, e))
  call-Answers (NodeRequest.sign_message message) e = then_pure (signed n message) _ s s' r e
  call-Answers (NodeRequest.verify_message message signature) e =
      ((n.verify message signature, n.our_node_id), ground (arith, e))
  call-Answers NodeRequest.list_unspent e = then_pure (list_unspent n) _ s s' r e
  call-Answers NodeRequest.network_graph_info e = (
    (length n.graph_channels, (n.graph_nodes, num_known_edge_policies n.graph_channels)),
    ground (arith, e),
  )
  call-Answers (NodeRequest.list_known_peers p) e = then_pure (list_known_peers n p) _ s s' r e
  call-Answers (NodeRequest.add_known_peer pubkey label zero_conf) e =
      (then_pure (with_peers (Peers.add_known_peer n.peer n.id pubkey label zero_conf)) _ s s' r
        e).1
  call-Answers (NodeRequest.remove_known_peer pubkey) e =
      (then_pure (with_peers (Peers.delete_peer n.peer n.id pubkey)) _ s s' r e).1
