-- ===== src/Lib.antt =====
-- Verification of sensei, a Lightning node manager: its core logic, written by hand after the Rust
-- source, and the theorems about it.
--
-- The program runs Lightning nodes in one process. Each node has an on-chain wallet that is kept in a
-- database and fed with transactions and blocks; transactions go out through a broadcaster; an admin
-- service makes, starts and stops the nodes, and access tokens guard its requests. A node handles the
-- events of the Lightning library, records its payments and peers in the database, opens channels in
-- batches that one transaction funds, and keeps its channels in a key-value store.
--
-- Which file models which part:
-- * Wallet (senseicore/src/chain/database.rs, with the rows of entity/src/*.rs). Types has the rows and
--   the state (`Stored`, one list of rows for each table), Store the writes to the tables, Queries the
--   lookups, Operations bdk's `BatchOperations`, Reads bdk's `Database` and `DatabaseUtils`, Process
--   `process_tx` and `process_mempool_tx`, Blocks the handlers of blocks. The checksum of a keychain's
--   row may be missing in the table, and such a row is written but cannot be read. An operation is an `Action`:
--   it takes the tables to a result (a value, an error or a panic) and to the tables as it leaves them,
--   also when it fails. Proofs: Views (what lookups find), Spends and Creates (the two loops of
--   `process_tx`), Sums (the amounts), Lookup (the utxo at an outpoint), Records (the transaction row),
--   Refines (the whole as one transition), Effects, Indexes (one index;
--   its children are Children, the paid children of a keychain, and Writes), Mempool, Scripts, Sync,
--   Connected (a block as its transactions), Isolation (the rows of other nodes).
-- * Broadcaster (senseicore/src/chain/broadcaster.rs), with what it hands on as logs.
-- * Hex (senseicore/src/hex_utils.rs and its copy in entity/src/lib.rs).
-- * Paging (senseicore/src/utils.rs, the listings of senseicore/src/node.rs).
-- * Auth (entity/src/access_token.rs, src/http/admin.rs, src/grpc/admin.rs): the check of a token,
--   and Create, its creation (senseicore/src/database.rs).
-- * Admin (senseicore/src/services/admin.rs): ports, the creation of nodes, the directory of the
--   running ones, the requests that make and start nodes (Requests, with the access tokens), and Batch,
--   the batch creation, the other requests and the end of the service. Directory, Ports, Builds, Batches
--   and Admits are proofs.
-- * Payments (entity/src/payment.rs, senseicore/src/database.rs and the calls of
--   senseicore/src/node.rs that write payments) and Peers (entity/src/peer.rs and its queries): the
--   rows, and what is found after each write.
-- * Events (senseicore/src/event_handler.rs), one definition for each arm of `handle_event`, over a state
--   of the node: its payments, its peers, its broadcaster with the wallet, and logs of what it asks of
--   the channel manager. Ledger and Reach are about the payments, Trust about the peers.
-- * Connect (the end of senseicore/src/node.rs): addresses and connections of peers.
-- * Channels (senseicore/src/channels.rs): Wait has `wait_for_events`, Open `open_batch`; Rounds and
--   Funding are their proofs. Its funding transaction goes out through the model of the broadcaster.
-- * Values (the key-value queries of senseicore/src/database.rs) and Persist
--   (senseicore/src/persist.rs): the stores behind `AnyKVStore`, the peers of the channels and the
--   channel monitors. `KvStore` with `IsKvStore` is the interface between them; the store in the
--   database is proved to fill it.
-- * Listings (the listings of senseicore/src/database.rs), over the paginator of sea-orm as an
--   interface (`Paginator`, `IsPaginator`).
-- * Node (senseicore/src/node.rs and senseicore/src/services/node.rs). Types has the requests and the
--   responses, Queries what a node looks up and adds up (a node is the record `LightningNode`, of what
--   its libraries answer during one request), Call `LightningNode::call`, over the state of a node of
--   Events and with the operations of Payments, Peers, Listings, Paging, Connect and Channels. A request
--   ends in a response, an error, a panic, or not at all (`Ending`).
-- * Transport (senseicore/src/utils.rs and what src/http/node.rs and src/grpc/node.rs share): the macaroon
--   that a request brings, the directory of the running nodes and its lock. A request holds the lock
--   (`held`) from its lookup in the directory to its end, unless it drops it, and keeps it for good if it
--   hangs; requests run one after the other. `Nodes` is the interface to the nodes, which `call` fills in the tests. Refused, Agree and Wedged compare the two transports.
-- * Grpc (src/grpc/node.rs, src/grpc/adaptor.rs, src/grpc/mod.rs, src/grpc/utils.rs): Messages and Calls
--   are the messages of proto/sensei.proto, Requests and Replies their conversions from requests and to
--   responses, Contents those of what they hold, Methods and Service the methods.
-- * Http (src/http/node.rs and src/http/utils.rs): the handlers; Params has their parameters (with those
--   of senseicore/src/services/mod.rs), which serde_json reads or not.
-- * State is the monad of the code that works on a state and can fail or panic.
-- * Sql, Codec and Maps are what these parts rely on: a table behind sea-orm, an encoding of bitcoin or
--   serde_json, a `HashMap`. The first two are interfaces (`Table`, `Codec`) with their documented
--   behaviour as named laws (`IsTable`, `IsCodec`); the tests fill them with tables in memory and with
--   an encoding in unary (Codec/Unary). Prelude and Text are shared helpers.
--
-- Numbers: `u64` and `usize` sums keep their wrap-around as in a release build, `try_into().unwrap()`
-- to a signed column is a panic above the bound, subtraction that saturates stays at 0. Texts, txids
-- and scripts are lists of bytes. The columns `id` (a uuid), `created_at` and `updated_at` are left out
-- of the rows. The loops follow their lists, but for the wait for events, which runs on fuel: its 60
-- rounds of 500 milliseconds are fewer than the 61 that `open_batch` gives it. A wait for a handshake has
-- as many looks as its list.
--
-- Not modelled: the Lightning library and what only calls it (the rest of senseicore/src/node.rs,
-- network_graph.rs, the network graph and the scorer of persist.rs), the chain client, the admin
-- handlers of src/http/admin.rs and src/grpc/admin.rs but for the check of tokens, the start of the
-- server and its command line, the JSON of a response, the migrations and the web interface. The answers of the Lightning
-- library, of bdk and of the network are arguments; what an event is only printed for is left out.
-- `LightningNode::new`, the secrets of a new node and the macaroon of a node are arguments.
pub mod Prelude
pub mod Text
pub mod Hex
pub mod Codec
pub mod State
pub mod Sql
pub mod Maps
pub mod Wallet
pub mod Broadcaster
pub mod Paging
pub mod Auth
pub mod Admin
pub mod Payments
pub mod Peers
pub mod Events
pub mod Connect
pub mod Channels
pub mod Values
pub mod Listings
pub mod Persist
pub mod Node
pub mod Transport
pub mod Grpc
pub mod Http
