-- ===== src/Persist.antt =====
-- senseicore/src/persist.rs: what a node keeps of its channels and peers in a store.
pub mod Store
pub mod Database
pub mod Peers
pub mod Names
mod Tests
use sensei.Prelude.{
  ℕ, ◌^◌, ◌+◌, ◌*◌, ◌-◌, ◌>>=◌, Bool, true, false, ◌&&◌, ◌||◌, not, Option, none, some, List, [],
  ◌∷◌, ◌++◌, Text, ◌=text◌, ltb, leb, ◌==◌, length, take, drop, is_empty, Outcome, ok, err, panic,
  or_err, expect_some, if◌then◌else◌, any,
}
use sensei.Text.{codes}
use sensei.Codec.{Codec}
use sensei.Maps.{insert}
use sensei.Connect.{Network, SocketAddr, parse_peer_info}

-- `std::io::Error`, as far as the store raises it.
pub data StoreError : Type 0 where
  failed invalid_file_name invalid_tx_id invalid_tx_index wrong_file undecodable : StoreError

-- `KVStoreReader` and `KVStorePersister`, over a state of the store.
pub record KvStore (S : Type 0) : Type 0 where
  pub read : Text → S → Outcome StoreError (Option Text)
  pub list : Text → S → Outcome StoreError (List Text)
  pub persist : Text → Text → S → Outcome StoreError (Unit {0}) × S

-- `str::lines`: a line ends with `\n` or `\r\n`, and the last one may have no end.
abbrev pub strip_cr : Text → Text
strip_cr [] = []
strip_cr (c ∷ []) = if c == 13 then [] else c ∷ []
strip_cr (c ∷ d ∷ cs) = c ∷ strip_cr (d ∷ cs)

unfoldable pub lines : Text → Text → List Text
lines part [] = if is_empty part then [] else part ∷ []
lines part (c ∷ cs) =
    let here = lines [] cs in
    let on = lines (part ++ c ∷ []) cs in if c == 10 then strip_cr part ∷ here else on

-- `push_str` and `push('\n')` for each.
unfoldable pub push_lines : Text → List Text → Text
push_lines peer_data [] = peer_data
push_lines peer_data (info ∷ infos) = push_lines ((peer_data ++ info) ++ 10 ∷ []) infos

-- `string` is how the Lightning library writes and reads a `String`.
module _ {S : Type 0} (store : KvStore S) (string : Codec Text) where
  unfoldable pub read_channel_manager : S → Outcome StoreError (Option Text)
  read_channel_manager = store.read (codes "manager")

  unfoldable pub get_raw_channel_peer_data : S → Text
  get_raw_channel_peer_data s = elim (store.read (codes "channel_peer_data") s) [
    | ok found ↦ elim found [
      | some contents ↦ elim (string.decode contents) [ some peer_data ↦ peer_data | none ↦ [] ]
      | none ↦ []
    ]
    | err e ↦ []
    | panic ↦ []
  ]

  unfoldable pub batch_persist_channel_peers : List Text → S → Outcome StoreError (Unit {0}) × S
  batch_persist_channel_peers peer_infos s =
      store.persist (codes "channel_peer_data")
        (string.encode (push_lines (get_raw_channel_peer_data s) peer_infos)) s

  unfoldable pub persist_channel_peer : Text → S → Outcome StoreError (Unit {0}) × S
  persist_channel_peer peer_info s =
      store.persist (codes "channel_peer_data")
        (string.encode ((get_raw_channel_peer_data s ++ peer_info) ++ 10 ∷ [])) s

  -- A key is shown as text. The lines that cannot be read are passed over.
  module _ (from_slice : Text → Option Text) (net : Network) where
    unfoldable pub collect : List Text → List (Text × SocketAddr) → List (Text × SocketAddr)
    collect [] peer_data = peer_data
    collect (line ∷ rest) peer_data = collect rest (elim (parse_peer_info from_slice net line) [
      | ok (pubkey, socket_addr) ↦ insert pubkey socket_addr peer_data
      | err e ↦ peer_data
      | panic ↦ peer_data
    ])

    unfoldable pub read_channel_peer_data : S → List (Text × SocketAddr)
    read_channel_peer_data s = collect (lines [] (get_raw_channel_peer_data s)) []

-- `str::ends_with`
unfoldable pub ends_with : Text → Text → Bool
ends_with suffix [] = is_empty suffix
ends_with suffix (c ∷ cs) = (suffix =text (c ∷ cs)) || ends_with suffix cs

-- `str::parse::<u16>`: decimal digits, at least one, after a plus sign or not.
unfoldable pub parse_digits : ℕ → Text → Option ℕ
parse_digits n [] = some n
parse_digits n (c ∷ cs) =
    let rest = parse_digits (n * 10 + (c - 48)) cs in
    if leb 48 c && leb c 57 then if ltb (n * 10 + (c - 48)) (2 ^ 16) then rest else none else none

unfoldable pub parse_u16 : Text → Option ℕ
parse_u16 [] = none
parse_u16 (c ∷ []) = if c == 43 then none else parse_digits 0 (c ∷ [])
parse_u16 (c ∷ d ∷ cs) = if c == 43 then parse_digits 0 (d ∷ cs) else parse_digits 0 (c ∷ d ∷ cs)

-- A channel monitor with the block it was stored at. `get_funding_txo` is the outpoint of the channel.
pub record Monitors (Monitor : Type 0) : Type 0 where
  pub from_hex : Text → Option Text
  pub read_monitor : Text → Option Monitor
  pub get_funding_txo : Monitor → Text × ℕ

module _ {S Monitor : Type 0} (store : KvStore S) (ms : Monitors Monitor) where
  unfoldable pub placed : Text → ℕ → Monitor → Outcome StoreError Monitor
  placed txid index monitor =
      if ((ms.get_funding_txo monitor).0 =text txid) && ((ms.get_funding_txo monitor).1 == index)
      then ok monitor
      else err wrong_file

  -- The monitor of a file, which must be that of the outpoint in its name.
  unfoldable pub read_stored : Text → S → Outcome StoreError Monitor
  read_stored filename s = do
    txid ← or_err invalid_tx_id (ms.from_hex (take 64 filename))
    index ← or_err invalid_tx_index (parse_u16 (drop 65 filename))
    found ← store.read (codes "monitors/" ++ filename) s
    contents ← expect_some found
    monitor ← or_err undecodable (ms.read_monitor contents)
    placed txid index monitor

  -- A file whose name ends in `.tmp` is passed over: its write was cut short.
  unfoldable pub read_channelmonitor : Text → S → Outcome StoreError (Option Monitor)
  read_channelmonitor filename s =
      if any (λ c. leb 128 c) filename || ltb (length filename) 65
      then err invalid_file_name
      else if ends_with (codes ".tmp") filename
      then ok none
      else (do monitor ← read_stored filename s; ok (some monitor))

  unfoldable pub read_each : List Text → S → Outcome StoreError (List Monitor)
  read_each [] s = ok []
  read_each (filename ∷ filenames) s = do
    found ← read_channelmonitor filename s
    rest ← read_each filenames s
    ok (elim found [ some monitor ↦ monitor ∷ rest | none ↦ rest ])

  unfoldable pub read_channelmonitors : S → Outcome StoreError (List Monitor)
  read_channelmonitors s = elim (store.list (codes "monitors") s) [
    | ok filenames ↦ read_each filenames s
    | err e ↦ panic
    | panic ↦ panic
  ]
