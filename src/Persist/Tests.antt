-- ===== src/Persist/Tests.antt =====
-- The theorems about what is kept, at a store in the database.
use sensei.Prelude.{
  ℕ, zero, suc, ◌≡◌, refl, true, Option, none, some, List, [], ◌∷◌, ◌++◌, length, ok, arith, Text,
  ◌↔◌, ◌=text◌,
}
use sensei.Text.{codes}
use sensei.Codec.{Codec}
use sensei.Maps.{lookup}
use sensei.Sql.{list_table}
use sensei.Sql.Laws.{list_table-IsTable}
use sensei.Wallet.Types.{KvRow, same_kv}
use sensei.Values.{get_value}
use sensei.Connect.{Network}
use sensei.Persist.{KvStore, Monitors, read_channel_peer_data, read_channelmonitors}
use sensei.Persist.Store.{database_store, IsKvStore}
use sensei.Persist.Database.{database_store-IsKvStore}
use sensei.Persist.Peers.{
  Write, single, batch, infos_of, persist_all, last_address, read_channel_peer_data-persist_all,
}
use sensei.Persist.Names.{Loaded, read_channelmonitors-Loaded}

abbrev kept : KvStore (List KvRow)
kept = database_store (list_table same_kv true) (codes "node")

kept-IsKvStore : IsKvStore kept
kept-IsKvStore =
    database_store-IsKvStore (list_table same_kv true) (codes "node")
      (list_table-IsTable same_kv true)

abbrev plain : Codec Text
plain = record { encode = λ t. t; decode = λ t. some t }

-- A text of `n` zeros.
abbrev zeros : ℕ → Text
zeros zero = []
zeros (suc n) = 48 ∷ zeros n

-- Each host has an address.
abbrev online : Network
online = record {
  to_socket_addrs = λ name. ok (record { ip = codes "10.0.0.7"; port = length name } ∷ []);
  public_ip = none;
}

abbrev any_key : Text → Option Text
any_key bytes = some bytes

-- A peer at a host.
abbrev peer_at : Text → Text
peer_at host = zeros 66 ++ 64 ∷ host

abbrev writes : List Write
writes =
    single (peer_at (codes "host")) ∷ batch (codes "03cd" ∷ peer_at (codes "newhost") ∷ []) ∷ []

-- What the digits of the key stand for.
abbrev nuls : ℕ → Text
nuls zero = []
nuls (suc n) = 0 ∷ nuls n

abbrev peer_id : Text
peer_id = nuls 33

read_channel_peer_data-persist_all_example :
    lookup peer_id
      (read_channel_peer_data kept plain any_key online (persist_all kept plain writes []))
    ≡ last_address any_key online peer_id (infos_of writes)
unfolding database_store get_value ◌=text◌
read_channel_peer_data-persist_all_example =
    read_channel_peer_data-persist_all kept plain kept-IsKvStore (λ x small. refl) any_key online
      writes [] peer_id refl (ground arith) (omega arith)

abbrev file_name : Text
file_name = zeros 64 ++ codes "_1"

abbrev shelf : KvStore (List Text)
shelf = record {
  read = λ key s. ok (some (codes "monitor"));
  list = λ key s. ok s;
  persist = λ key value s. (ok tt, s);
}

abbrev outpoints : Monitors (Text × ℕ)
outpoints = record {
  from_hex = λ text. some text;
  read_monitor = λ contents. some (zeros 64, 1);
  get_funding_txo = λ m. m;
}

read_channelmonitors-Loaded_example :
    (read_channelmonitors shelf outpoints (file_name ∷ []) ≡ ok ((zeros 64, 1) ∷ []))
    ↔ Loaded shelf outpoints (file_name ∷ []) (file_name ∷ []) ((zeros 64, 1) ∷ [])
read_channelmonitors-Loaded_example =
    read_channelmonitors-Loaded shelf outpoints (file_name ∷ []) (file_name ∷ [])
      ((zeros 64, 1) ∷ []) refl
