-- ===== src/Events/Trust.antt =====
-- Which peers may open a channel that needs no confirmation.
use sensei.Prelude.{
  ◌≡◌, refl, ap, ◌∙◌, Bool, true, false, List, [], ◌∷◌, ◌++◌, Text, ◌=text◌, ok, find, arith,
  Option-cases, inl, inr, if◌then◌else◌,
}
use sensei.Sql.{IsTable}
use sensei.Peers.{PeerRow, same_peer, by_pubkey, add_known_peer, delete_peer, label_peer, find_peer}
use sensei.Peers.Lookup.{trusted, trusted-add_known_peer, trusted-delete_peer, trusted-label_peer}
use sensei.Events.{
  open_channel_request, accept_inbound_channel_from_trusted_peer_0conf, accept_inbound_channel,
  NodeState, LightningNodeEventHandler, handle_event, on_open_channel_request, is_trusted_peer,
}

-- The requests that write the table of peers.
pub data PeerRequest : Type 0 where
  add : (pubkey label : Text) (zero_conf : Bool) → PeerRequest
  remove : (pubkey : Text) → PeerRequest
  relabel : (pubkey label : Text) → PeerRequest

-- What the last request that concerns a peer says of it.
abbrev pub verdict : Text → List PeerRequest → Bool → Bool
verdict k [] b = b
verdict k (add p label z ∷ rest) b = verdict k rest (if p =text k then z else b)
verdict k (remove p ∷ rest) b = verdict k rest (if p =text k then false else b)
verdict k (relabel p label ∷ rest) b = verdict k rest b

module _ (h : LightningNodeEventHandler) where
  abbrev serve : PeerRequest → List PeerRow → List PeerRow
  serve (add p label z) rows = (add_known_peer h.peer h.node_id p label z rows).1
  serve (remove p) rows = (delete_peer h.peer h.node_id p rows).1
  serve (relabel p label) rows = (label_peer h.peer h.node_id p label rows).1

  abbrev pub served : List PeerRequest → List PeerRow → List PeerRow
  served [] rows = rows
  served (r ∷ rest) rows = served rest (serve r rows)

  module _ (law : IsTable same_peer true h.peer) where
    trusted-served :
        (k : Text) (requests : List PeerRequest) (rows : List PeerRow)
        → trusted h.node_id k (served requests rows) ≡ verdict k requests (trusted h.node_id k rows)
    trusted-served k [] rows = refl
    trusted-served k (add p label z ∷ rest) rows =
        trusted-served k rest (add_known_peer h.peer h.node_id p label z rows).1
        ∙ ap (verdict k rest) (trusted-add_known_peer h.peer law h.node_id p label z k rows)
    trusted-served k (remove p ∷ rest) rows =
        trusted-served k rest (delete_peer h.peer h.node_id p rows).1
        ∙ ap (verdict k rest) (trusted-delete_peer h.peer law h.node_id p k rows)
    trusted-served k (relabel p label ∷ rest) rows =
        trusted-served k rest (label_peer h.peer h.node_id p label rows).1
        ∙ ap (verdict k rest) (trusted-label_peer h.peer law h.node_id p label k rows)

    -- For a table of peers that is up, and after any requests to add, remove or label peers, from a
    -- table without any: an offered channel is accepted without confirmations exactly when the last
    -- request to add or remove its peer added it so, and is otherwise accepted as an ordinary one.
    pub handle_event-trusted :
        (requests : List PeerRequest) (id k : Text) (st : NodeState)
        → st.peers ≡ served requests []
        → handle_event h (open_channel_request id k) st ≡ (
          ok tt,
          record st {
            calls =
                st.calls
                ++ (if verdict k requests false
                    then accept_inbound_channel_from_trusted_peer_0conf id k 1
                    else accept_inbound_channel id k 1)
                  ∷ [];
          },
        )
    unfolding handle_event on_open_channel_request is_trusted_peer find_peer
    handle_event-trusted requests id k st e =
        let look = law.one_lem (by_pubkey h.node_id k) st.peers in
        let says : trusted h.node_id k st.peers ≡ verdict k requests false =
          ap (trusted h.node_id k) e ∙ trusted-served k requests [] in
        elim (Option-cases (find (by_pubkey h.node_id k) st.peers)) [
          | inl missing ↦ ground (arith, look, missing, says)
          | inr (r, found) ↦ ground (arith, look, found, says)
        ]
