-- ===== src/Persist/Peers.antt =====
-- The peers of the channels are kept as lines of a text: what was written is read.
use sensei.Prelude.{
  ◌+◌, ◌<◌, ◌^◌, ◌≡◌, refl, sym, ap, ◌∙◌, false, Option, none, some, List, [], ◌∷◌, ◌++◌,
  append_assoc, append-nil, Text, =text_refl, length, All, ok, ◌==◌, arith, if◌then◌else◌,
}
use sensei.Text.{codes}
use sensei.Codec.{Codec}
use sensei.Connect.{Network, SocketAddr, IoError, parse_peer_info}
use sensei.Maps.{lookup, insert, lookup-insert}
use sensei.Prelude.{Outcome, err, panic, ◌=text◌}
use sensei.Persist.{
  KvStore, strip_cr, lines, push_lines, get_raw_channel_peer_data, batch_persist_channel_peers,
  persist_channel_peer, collect, read_channel_peer_data,
}
use sensei.Persist.Store.{IsKvStore}

-- A text that stands on one line: it contains no end of a line, and does not end in a carriage return.
abbrev pub IsLine : Text → Type 0
IsLine info = All (λ c. (c == 10) ≡ false) info × (strip_cr info ≡ info)

abbrev pub joined : List Text → Text
joined [] = []
joined (info ∷ infos) = info ++ 10 ∷ joined infos

lines_end :
    (part info rest : Text)
    → All (λ c. (c == 10) ≡ false) info
    → lines part (info ++ 10 ∷ rest) ≡ strip_cr (part ++ info) ∷ lines [] rest
unfolding lines
lines_end part [] rest h = rw (append-nil part) refl
lines_end part (c ∷ info) rest h =
    ground (arith, h.0, lines_end (part ++ c ∷ []) info rest h.1, append_assoc part (c ∷ []) info)

lines-joined : (infos : List Text) → All IsLine infos → lines [] (joined infos) ≡ infos
unfolding lines
lines-joined [] h = refl
lines-joined (info ∷ infos) h =
    lines_end [] info (joined infos) h.0.0
    ∙ ap (λ l. l ∷ lines [] (joined infos)) h.0.1
    ∙ ap (λ ls. info ∷ ls) (lines-joined infos h.1)

joined-append : (old infos : List Text) → joined (old ++ infos) ≡ joined old ++ joined infos
joined-append [] infos = refl
joined-append (x ∷ old) infos =
    ap (λ t. x ++ 10 ∷ t) (joined-append old infos)
    ∙ sym (append_assoc x (10 ∷ joined old) (joined infos))

push_lines-joined : (d : Text) (infos : List Text) → push_lines d infos ≡ d ++ joined infos
unfolding push_lines
push_lines-joined d [] = sym (append-nil d)
push_lines-joined d (info ∷ infos) =
    push_lines-joined ((d ++ info) ++ 10 ∷ []) infos
    ∙ append_assoc (d ++ info) (10 ∷ []) (joined infos)
    ∙ append_assoc d info (10 ∷ joined infos)

length-append : (s t : Text) → length (s ++ t) ≡ length s + length t
length-append [] t = omega arith
length-append (c ∷ s) t = omega (arith, length-append s t)

-- The two calls that write peers.
pub data Write : Type 0 where
  single : Text → Write
  batch : List Text → Write

abbrev pub infos_of : List Write → List Text
infos_of [] = []
infos_of (single info ∷ ws) = info ∷ infos_of ws
infos_of (batch infos ∷ ws) = infos ++ infos_of ws

-- The first address, or else the second.
abbrev pub or_before : Option SocketAddr → Option SocketAddr → Option SocketAddr
or_before none before = before
or_before (some a) before = some a

or_before-none : (a : Option SocketAddr) → or_before a none ≡ a
or_before-none none = refl
or_before-none (some a) = refl

or_before_assoc :
    (a b c : Option SocketAddr) → or_before a (or_before b c) ≡ or_before (or_before a b) c
or_before_assoc none b c = refl
or_before_assoc (some a) b c = refl

-- The address of the last line of a key.
module _ (from_slice : Text → Option Text) (net : Network) (key : Text) where
  abbrev pub address_on : Text → Option SocketAddr
  address_on line = elim (parse_peer_info from_slice net line) [
    | ok (pubkey, socket_addr) ↦ if pubkey =text key then some socket_addr else none
    | err e ↦ none
    | panic ↦ none
  ]

  abbrev pub last_address : List Text → Option SocketAddr
  last_address [] = none
  last_address (line ∷ rest) = or_before (last_address rest) (address_on line)

module _ {S : Type 0} (store : KvStore S) (string : Codec Text) where
  unfoldable pub persist_all : List Write → S → S
  persist_all [] s = s
  persist_all (single info ∷ ws) s = persist_all ws (persist_channel_peer store string info s).1
  persist_all (batch infos ∷ ws) s =
      persist_all ws (batch_persist_channel_peers store string infos s).1

  single-batch :
      (info : Text) (s : S)
      → persist_channel_peer store string info s
        ≡ batch_persist_channel_peers store string (info ∷ []) s
  unfolding persist_channel_peer batch_persist_channel_peers push_lines
  single-batch info s = refl

  lookup-collect :
      (from_slice : Text → Option Text) (net : Network) (key : Text) (infos : List Text)
      (peer_data : List (Text × SocketAddr))
      → lookup key (collect store string from_slice net infos peer_data)
        ≡ or_before (last_address from_slice net key infos) (lookup key peer_data)
  unfolding collect
  lookup-collect from_slice net key [] peer_data = refl
  lookup-collect from_slice net key (line ∷ rest) peer_data =
      let after : List (Text × SocketAddr) = elim (parse_peer_info from_slice net line) [
        | ok (pubkey, socket_addr) ↦ insert pubkey socket_addr peer_data
        | err e ↦ peer_data
        | panic ↦ peer_data
      ] in
      lookup-collect from_slice net key rest after
      ∙ ap (or_before (last_address from_slice net key rest))
          (one (parse_peer_info from_slice net line))
      ∙ or_before_assoc (last_address from_slice net key rest) (address_on from_slice net key line)
          (lookup key peer_data)
    where
      one :
          (r : Outcome IoError (Text × SocketAddr))
          → lookup key (elim r [
            | ok (pubkey, socket_addr) ↦ insert pubkey socket_addr peer_data
            | err e ↦ peer_data
            | panic ↦ peer_data
          ])
            ≡ or_before
                (elim r [
                  | ok (pubkey, socket_addr) ↦ if pubkey =text key then some socket_addr else none
                  | err e ↦ none
                  | panic ↦ none
                ])
                (lookup key peer_data)
      one (ok (pubkey, socket_addr)) =
          ground (arith, lookup-insert pubkey key socket_addr peer_data)
      one (err e) = refl
      one panic = refl

  module _ (law : IsKvStore store)
      (strings : (x : Text) → length x < 2 ^ 16 → string.decode (string.encode x) ≡ some x) where
    raw_peer_data :
        (d : Text) (s : S)
        → length d < 2 ^ 16
        → get_raw_channel_peer_data store string
            (store.persist (codes "channel_peer_data") (string.encode d) s).1
          ≡ d
    unfolding get_raw_channel_peer_data
    raw_peer_data d s small =
        let found : store.read (codes "channel_peer_data")
              (store.persist (codes "channel_peer_data") (string.encode d) s).1
            ≡ ok (some (string.encode d)) =
          law.read-persist (codes "channel_peer_data") (string.encode d) (codes "channel_peer_data")
            s
          ∙ ap
              (λ b.
                if b then ok (some (string.encode d)) else store.read (codes "channel_peer_data") s)
              (=text_refl (codes "channel_peer_data")) in
        ground (arith, found, strings d small)

    batch_step :
        (old infos : List Text) (s : S)
        → get_raw_channel_peer_data store string s ≡ joined old
        → length (joined (old ++ infos)) < 2 ^ 16
        → get_raw_channel_peer_data store string
            (batch_persist_channel_peers store string infos s).1
          ≡ joined (old ++ infos)
    unfolding batch_persist_channel_peers
    batch_step old infos s e small =
        let text : push_lines (get_raw_channel_peer_data store string s) infos
            ≡ joined (old ++ infos) =
          push_lines-joined (get_raw_channel_peer_data store string s) infos
          ∙ ap (λ d. d ++ joined infos) e
          ∙ sym (joined-append old infos) in
        ap
          (λ d.
            get_raw_channel_peer_data store string
              (store.persist (codes "channel_peer_data") (string.encode d) s).1)
          text
        ∙ raw_peer_data (joined (old ++ infos)) s small

    -- A part of the peers takes no more room than all of them.
    shorter :
        (xs ys : List Text) → length (joined (xs ++ ys)) < 2 ^ 16 → length (joined xs) < 2 ^ 16
    shorter xs ys small =
        let both =
          ap (λ t. length t) (joined-append xs ys) ∙ length-append (joined xs) (joined ys) in
        omega (arith, both, small)

    persist_all-raw :
        (ws : List Write) (old : List Text) (s : S)
        → get_raw_channel_peer_data store string s ≡ joined old
        → length (joined (old ++ infos_of ws)) < 2 ^ 16
        → get_raw_channel_peer_data store string (persist_all ws s) ≡ joined (old ++ infos_of ws)
    unfolding persist_all
    persist_all-raw [] old s e small = e ∙ ap joined (sym (append-nil old))
    persist_all-raw (single info ∷ ws) old s e small =
        let split = append_assoc old (info ∷ []) (infos_of ws) in
        let small' : length (joined ((old ++ info ∷ []) ++ infos_of ws)) < 2 ^ 16 =
          rw split small in
        let one =
          ap (λ r. get_raw_channel_peer_data store string r.1) (single-batch info s)
          ∙ batch_step old (info ∷ []) s e (shorter (old ++ info ∷ []) (infos_of ws) small') in
        persist_all-raw ws (old ++ info ∷ []) (persist_channel_peer store string info s).1 one
          small'
        ∙ ap joined split
    persist_all-raw (batch infos ∷ ws) old s e small =
        let split = append_assoc old infos (infos_of ws) in
        let small' : length (joined ((old ++ infos) ++ infos_of ws)) < 2 ^ 16 = rw split small in
        persist_all-raw ws (old ++ infos) (batch_persist_channel_peers store string infos s).1
          (batch_step old infos s e (shorter (old ++ infos) (infos_of ws) small')) small'
        ∙ ap joined split

    -- For a store that keeps what is persisted, strings below 2^16 bytes that are decoded as they were
    -- encoded, and no peers at first: after any writes of peers that stand on a line each, one by one
    -- or in batches, and fit together in such a string, each key is found with the address of the last
    -- line of that key that can be read, and no other key is found.
    pub read_channel_peer_data-persist_all :
        (from_slice : Text → Option Text) (net : Network) (ws : List Write) (s : S) (key : Text)
        → store.read (codes "channel_peer_data") s ≡ ok none
        → All IsLine (infos_of ws)
        → length (joined (infos_of ws)) < 2 ^ 16
        → lookup key (read_channel_peer_data store string from_slice net (persist_all ws s))
          ≡ last_address from_slice net key (infos_of ws)
    unfolding read_channel_peer_data get_raw_channel_peer_data lookup
    read_channel_peer_data-persist_all from_slice net ws s key fresh h small =
        let start : get_raw_channel_peer_data store string s ≡ joined [] = ground (arith, fresh) in
        let raw = persist_all-raw ws [] s start small in
        ap (λ t. lookup key (collect store string from_slice net (lines [] t) [])) raw
        ∙ ap (λ ls. lookup key (collect store string from_slice net ls []))
            (lines-joined (infos_of ws) h)
        ∙ lookup-collect from_slice net key (infos_of ws) []
        ∙ or_before-none (last_address from_slice net key (infos_of ws))
