-- ===== src/Connect.antt =====
-- senseicore/src/node.rs, the functions at its end: the address of a peer, and the connection to it.
use sensei.Prelude.{
  ℕ, Bool, true, false, Option, none, some, List, [], ◌∷◌, Text, ◌=text◌, ◌==◌, Outcome, ok, err,
  panic, ◌>>=◌, or_err, any, unwrap_or, if◌then◌else◌,
}
use sensei.Text.{codes}
use sensei.Hex.{to_compressed_pubkey}

-- `std::io::Error`
pub data IoError : Type 0 where
  unable_to_parse_pubkey bad_socket_address bad_peer_info : IoError

pub record SocketAddr : Type 0 where
  pub ip : Text
  pub port : ℕ

-- `from_slice` is `PublicKey::from_slice`.
unfoldable pub parse_pubkey : {Key : Type 0} → (Text → Option Key) → Text → Outcome IoError Key
parse_pubkey from_slice pubkey =
    or_err unable_to_parse_pubkey (to_compressed_pubkey from_slice pubkey)

-- The name service and `public_ip::addr`: what they find, if anything.
pub record Network : Type 0 where
  pub to_socket_addrs : Text → Outcome IoError (List SocketAddr)
  pub public_ip : Option Text

-- A node that is asked for under the own public address is reached on this machine.
abbrev local_or : Text → SocketAddr → SocketAddr
local_or listen_addr addr =
    if listen_addr =text addr.ip then record { ip = codes "127.0.0.1"; port = addr.port } else addr

unfoldable pub parse_peer_addr : Network → Text → Outcome IoError SocketAddr
parse_peer_addr net peer_addr_str = elim (net.to_socket_addrs peer_addr_str) [
  | ok addrs ↦ elim addrs [
    | [] ↦ err bad_socket_address
    | addr ∷ rest ↦ ok (local_or (unwrap_or (codes "127.0.0.1") net.public_ip) addr)
  ]
  | err e ↦ err bad_socket_address
  | panic ↦ panic
]

-- The first two parts of `split('@')`.
unfoldable pub first_part : Text → Text × Option Text
first_part [] = ([], none)
first_part (c ∷ cs) =
    let (part, rest) = first_part cs in if c == 64 then ([], some cs) else (c ∷ part, rest)

unfoldable pub parse_peer_info :
    {Key : Type 0} → (Text → Option Key) → Network → Text → Outcome IoError (Key × SocketAddr)
parse_peer_info from_slice net peer_pubkey_and_ip_addr =
    let (pubkey, rest) = first_part peer_pubkey_and_ip_addr in
    elim rest [
      | none ↦ err bad_peer_info
      | some tail ↦ (do
        key ← parse_pubkey from_slice pubkey
        connect_address ← parse_peer_addr net (first_part tail).0
        ok (key, connect_address))
    ]

-- One look at a connection in the making: whether it was closed, and the peers of the peer manager.
pub record Look : Type 0 where
  pub closed : Bool
  pub peer_node_ids : List Text

unfoldable pub connected_to_peer : Text → List Text → Bool
connected_to_peer pubkey = any λ id. id =text pubkey

-- Looks, 10 milliseconds apart, until the handshake is done or the connection was closed. `none` stands
-- for a list of looks that ends before.
unfoldable pub await_handshake : Text → List Look → Option Bool
await_handshake pubkey [] = none
await_handshake pubkey (look ∷ looks) =
    let on = await_handshake pubkey looks in
    if look.closed
    then some false
    else if connected_to_peer pubkey look.peer_node_ids
    then some true
    else on

-- `outbound` says whether `connect_outbound` gave a connection. The result is `true` for `Ok(())`.
unfoldable pub connect_peer_if_necessary : Text → List Text → Bool → List Look → Option Bool
connect_peer_if_necessary pubkey peer_node_ids outbound looks =
    if connected_to_peer pubkey peer_node_ids
    then some true
    else if outbound
    then await_handshake pubkey looks
    else some false
