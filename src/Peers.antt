-- ===== src/Peers.antt =====
-- The peers that a node knows: entity/src/peer.rs, their queries in senseicore/src/database.rs and the
-- requests of senseicore/src/node.rs that write them.
pub mod Lookup
use sensei.Prelude.{
  Bool, true, false, ◌&&◌, Option, none, some, List, Text, ◌=text◌, Outcome, ok, err, panic,
  if◌then◌else◌,
}
use sensei.Sql.{Table, DbErr}
use sensei.State.{Run, ◌>>=◌, pure}

pub record PeerRow : Type 0 where
  pub node_id : Text
  pub pubkey : Text
  pub zero_conf : Bool
  pub label : Option Text

-- The unique index of the table.
abbrev pub same_peer : PeerRow → PeerRow → Bool
same_peer a b = (b.node_id =text a.node_id) && (b.pubkey =text a.pubkey)

abbrev pub by_pubkey : Text → Text → PeerRow → Bool
by_pubkey node_id pubkey r = (r.node_id =text node_id) && (r.pubkey =text pubkey)

abbrev pub Peers {ℓ} : Type ℓ → Type ℓ
Peers A = Run (List PeerRow) DbErr A

abbrev pub stored : Outcome DbErr (List PeerRow) → Peers (Unit {0})
stored (ok rows) old = (ok tt, rows)
stored (err e) old = (err e, old)
stored panic old = (panic, old)

module _ (t : Table PeerRow) where
  unfoldable pub find_peer : Text → Text → Peers (Option PeerRow)
  find_peer node_id pubkey rows = (t.one (by_pubkey node_id pubkey) rows, rows)

  unfoldable pub label_peer : Text → Text → Text → Peers (Unit {0})
  label_peer node_id pubkey label = do
    found ← find_peer node_id pubkey
    elim found [
      | some peer ↦ (λ rows. stored (t.update (record peer { label = some label }) rows) rows)
      | none ↦ pure tt
    ]

  unfoldable pub delete_peer : Text → Text → Peers (Unit {0})
  delete_peer node_id pubkey = do
    found ← find_peer node_id pubkey
    elim found [ some peer ↦ (λ rows. stored (t.delete peer rows) rows) | none ↦ pure tt ]

  abbrev pub known_peer : Text → Text → Text → Bool → PeerRow
  known_peer node_id pubkey label zero_conf = record {
    node_id = node_id;
    pubkey = pubkey;
    zero_conf = zero_conf;
    label = some label;
  }

  unfoldable pub add_known_peer : Text → Text → Text → Bool → Peers (Unit {0})
  add_known_peer node_id pubkey label zero_conf = do
    found ← find_peer node_id pubkey
    elim found [
      | some peer ↦ (λ rows.
          stored (t.update (record peer { label = some label; zero_conf = zero_conf }) rows) rows)
      | none ↦ (λ rows. stored (t.insert (known_peer node_id pubkey label zero_conf) rows) rows)
    ]
