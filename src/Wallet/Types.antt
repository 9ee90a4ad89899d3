-- ===== src/Wallet/Types.antt =====
-- The values that bdk and bitcoin hand to the wallet, the rows of its tables (entity/src/utxo.rs,
-- transaction.rs, script_pubkey.rs, keychain.rs, kv_store.rs), and the database handle.
-- A txid and a script are the strings of their bytes. Columns of type i32 and i64 are only written
-- from unsigned values, so they are numbers below 2^31 and 2^63.
use sensei.Prelude.{ℕ, Bool, true, false, ◌&&◌, Option, none, some, List, Text, ◌==◌, ◌=text◌}
use sensei.Sql.{Table, IsTable}
use sensei.Codec.{Codec, IsCodec}

pub data KeychainKind : Type 0 where
  external internal : KeychainKind

infix 50 ◌=kind◌
abbrev pub ◌=kind◌ : KeychainKind → KeychainKind → Bool
external =kind external = true
external =kind internal = false
internal =kind external = false
internal =kind internal = true

pub record OutPoint : Type 0 where
  pub txid : Text
  pub vout : ℕ

pub record TxOut : Type 0 where
  pub value : ℕ
  pub script_pubkey : Text

-- `txid()` is a field here; `input` holds the `previous_output` of each input.
pub record Transaction : Type 0 where
  pub txid : Text
  pub input : List OutPoint
  pub output : List TxOut

pub record LocalUtxo : Type 0 where
  pub outpoint : OutPoint
  pub txout : TxOut
  pub keychain : KeychainKind
  pub is_spent : Bool

pub record BlockTime : Type 0 where
  pub height : ℕ
  pub timestamp : ℕ

pub record TransactionDetails : Type 0 where
  pub transaction : Option Transaction
  pub txid : Text
  pub received : ℕ
  pub sent : ℕ
  pub fee : Option ℕ
  pub confirmation_time : Option BlockTime

-- `database::LastSync`
pub record LastSync : Type 0 where
  pub height : ℕ
  pub hash : Text
  pub timestamp : ℕ

pub record UtxoRow : Type 0 where
  pub node_id : Text
  pub value : ℕ
  pub keychain : Text
  pub vout : ℕ
  pub txid : Text
  pub script : Text
  pub is_spent : Bool

pub record TransactionRow : Type 0 where
  pub node_id : Text
  pub txid : Text
  pub raw_tx : Option Text
  pub received : Option ℕ
  pub sent : Option ℕ
  pub fee : Option ℕ
  pub confirmation_time : Option Text

pub record ScriptPubkeyRow : Type 0 where
  pub node_id : Text
  pub keychain : Text
  pub child : ℕ
  pub script : Text

-- A row of the table, whose column of checksums is nullable; the model's is not.
pub record KeychainRow : Type 0 where
  pub node_id : Text
  pub keychain : Text
  pub last_derivation_index : ℕ
  pub checksum : Option Text

-- The row can be decoded as the model.
abbrev pub has_checksum : KeychainRow → Bool
has_checksum row = elim row.checksum [ none ↦ false | some checksum ↦ true ]

pub record KvRow : Type 0 where
  pub node_id : Text
  pub k : Text
  pub v : Text

-- The tables as they stand.
pub record Stored : Type 0 where
  pub utxos : List UtxoRow
  pub transactions : List TransactionRow
  pub script_pubkeys : List ScriptPubkeyRow
  pub keychains : List KeychainRow
  pub kv_store : List KvRow

-- `WalletDatabase`: the node that it serves, its tables, the encodings that it stores, and what
-- `BlockTime::new` of bdk makes of a height and a time.
pub record WalletDatabase : Type 0 where
  pub node_id : Text
  pub utxo : Table UtxoRow
  pub transaction : Table TransactionRow
  pub script_pubkey : Table ScriptPubkeyRow
  pub keychain : Table KeychainRow
  pub kv_store : Table KvRow
  pub txid_codec : Codec Text
  pub script_codec : Codec Text
  pub tx_codec : Codec Transaction
  pub keychain_codec : Codec KeychainKind
  pub block_time_codec : Codec BlockTime
  pub last_sync_codec : Codec LastSync
  pub sync_time_codec : Codec BlockTime
  pub block_time : Option ℕ → Option ℕ → Option BlockTime

-- The columns by which a row is addressed.
abbrev pub same_utxo : UtxoRow → UtxoRow → Bool
same_utxo a b = (b.txid =text a.txid) && (b.vout == a.vout)

abbrev pub same_transaction : TransactionRow → TransactionRow → Bool
same_transaction a b = (b.node_id =text a.node_id) && (b.txid =text a.txid)

abbrev pub same_script_pubkey : ScriptPubkeyRow → ScriptPubkeyRow → Bool
same_script_pubkey a b =
    (b.node_id =text a.node_id) && ((b.keychain =text a.keychain) && (b.child == a.child))

abbrev pub same_keychain : KeychainRow → KeychainRow → Bool
same_keychain a b = (b.node_id =text a.node_id) && (b.keychain =text a.keychain)

abbrev pub same_kv : KvRow → KvRow → Bool
same_kv a b = (b.node_id =text a.node_id) && (b.k =text a.k)

-- The database is up, and the encodings are encodings.
pub record IsUp (w : WalletDatabase) : Type 0 where
  pub utxo_law : IsTable same_utxo true w.utxo
  pub transaction_law : IsTable same_transaction false w.transaction
  pub script_pubkey_law : IsTable same_script_pubkey true w.script_pubkey
  pub keychain_law : IsTable same_keychain false w.keychain
  pub kv_law : IsTable same_kv true w.kv_store
  pub txid_law : IsCodec w.txid_codec
  pub script_law : IsCodec w.script_codec
  pub tx_law : IsCodec w.tx_codec
  pub keychain_codec_law : IsCodec w.keychain_codec
  pub block_time_law : IsCodec w.block_time_codec
  pub last_sync_law : IsCodec w.last_sync_codec
  pub sync_time_law : IsCodec w.sync_time_codec
