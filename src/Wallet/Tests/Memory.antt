-- ===== src/Wallet/Tests/Memory.antt =====
-- A wallet over tables in memory, before and after a payment.
use sensei.Prelude.{Option, ℕ, zero, suc, ◌≡◌, refl, true, false, none, some, [], ◌∷◌, Text}
use sensei.Text.{codes}
use sensei.Sql.{list_table}
use sensei.Sql.Laws.{list_table-IsTable}
use sensei.Codec.{hexed}
use sensei.Codec.Unary.{Format, number, pair, list, shaped, codec_of, codec_of-IsCodec}
use sensei.Wallet.Types.{
  KeychainKind, external, internal, OutPoint, TxOut, Transaction, BlockTime, LastSync,
  WalletDatabase, Stored, IsUp, same_utxo, same_transaction, same_script_pubkey, same_keychain,
  same_kv, KeychainRow,
}
use sensei.Wallet.Views.{IsReadable}

abbrev text : Format Text
text = list number

abbrev kind_of : ℕ → KeychainKind
kind_of zero = external
kind_of (suc n) = internal

abbrev number_of : KeychainKind → ℕ
number_of external = 0
number_of internal = 1

pub kind_back : (k : KeychainKind) → kind_of (number_of k) ≡ k
kind_back external = refl
kind_back internal = refl

abbrev kind : Format KeychainKind
kind = shaped number kind_of number_of kind_back

abbrev outpoint : Format OutPoint
outpoint =
    shaped (pair text number) (λ (t, v). record { txid = t; vout = v }) (λ o. (o.txid, o.vout))
      (λ o. refl)

abbrev txout : Format TxOut
txout =
    shaped (pair number text) (λ (v, s). record { value = v; script_pubkey = s })
      (λ o. (o.value, o.script_pubkey)) (λ o. refl)

abbrev transaction : Format Transaction
transaction =
    shaped (pair text (pair (list outpoint) (list txout)))
      (λ (t, (i, o)). record { txid = t; input = i; output = o })
      (λ tx. (tx.txid, (tx.input, tx.output))) (λ tx. refl)

abbrev block_time : Format BlockTime
block_time =
    shaped (pair number number) (λ (h, t). record { height = h; timestamp = t })
      (λ b. (b.height, b.timestamp)) (λ b. refl)

abbrev last_sync : Format LastSync
last_sync =
    shaped (pair number (pair text number))
      (λ (h, (x, t)). record { height = h; hash = x; timestamp = t })
      (λ s. (s.height, (s.hash, s.timestamp))) (λ s. refl)

-- A block time where both are there.
abbrev pub both : Option ℕ → Option ℕ → Option BlockTime
both none t = none
both (some h) none = none
both (some h) (some t) = some (record { height = h; timestamp = t })

abbrev pub memory : WalletDatabase
memory = record {
  node_id = codes "node";
  utxo = list_table same_utxo true;
  transaction = list_table same_transaction false;
  script_pubkey = list_table same_script_pubkey true;
  keychain = list_table same_keychain false;
  kv_store = list_table same_kv true;
  txid_codec = codec_of text;
  script_codec = codec_of text;
  tx_codec = codec_of transaction;
  keychain_codec = codec_of kind;
  block_time_codec = codec_of block_time;
  last_sync_codec = codec_of last_sync;
  sync_time_codec = codec_of block_time;
  block_time = both;
}

pub memory-IsUp : IsUp memory
memory-IsUp = record {
  utxo_law = list_table-IsTable same_utxo true;
  transaction_law = list_table-IsTable same_transaction false;
  script_pubkey_law = list_table-IsTable same_script_pubkey true;
  keychain_law = list_table-IsTable same_keychain false;
  kv_law = list_table-IsTable same_kv true;
  txid_law = codec_of-IsCodec text;
  script_law = codec_of-IsCodec text;
  tx_law = codec_of-IsCodec transaction;
  keychain_codec_law = codec_of-IsCodec kind;
  block_time_law = codec_of-IsCodec block_time;
  last_sync_law = codec_of-IsCodec last_sync;
  sync_time_law = codec_of-IsCodec block_time;
}

abbrev pub our_script : Text
our_script = codes "ours"

-- A transaction that pays 5000 to us and 100 to somebody else.
abbrev pub payment : Transaction
payment = record {
  txid = codes "tx1";
  input = record { txid = codes "tx0"; vout = 1 } ∷ [];
  output =
      record { value = 5000; script_pubkey = our_script }
      ∷ record { value = 100; script_pubkey = codes "theirs" }
      ∷ [];
}

-- A transaction that spends the 5000 and pays 4000 back to us.
abbrev pub spending : Transaction
spending = record {
  txid = codes "tx2";
  input = record { txid = codes "tx1"; vout = 0 } ∷ [];
  output = record { value = 4000; script_pubkey = our_script } ∷ [];
}

-- The row of a keychain, as after `check_descriptor_checksum`.
abbrev pub keychain_at : KeychainKind → ℕ → KeychainRow
keychain_at k index = record {
  node_id = codes "node";
  keychain = memory.keychain_codec.encode k;
  last_derivation_index = index;
  checksum = some (codes "sum");
}

-- The wallet after the payment.
abbrev pub funded : Stored
funded = record {
  utxos =
      record {
        node_id = codes "node";
        value = 5000;
        keychain = memory.keychain_codec.encode external;
        vout = 0;
        txid = hexed memory.txid_codec (codes "tx1");
        script = hexed memory.script_codec our_script;
        is_spent = false;
      }
      ∷ [];
  transactions =
      record {
        node_id = codes "node";
        txid = hexed memory.txid_codec (codes "tx1");
        raw_tx = some (memory.tx_codec.encode payment);
        received = some 5000;
        sent = some 0;
        fee = some 0;
        confirmation_time = none;
      }
      ∷ [];
  script_pubkeys =
      record {
        node_id = codes "node";
        keychain = memory.keychain_codec.encode external;
        child = 3;
        script = hexed memory.script_codec our_script;
      }
      ∷ [];
  keychains = keychain_at external 2 ∷ keychain_at internal 5 ∷ [];
  kv_store = [];
}

pub funded-IsReadable : IsReadable memory funded
funded-IsReadable = record {
  utxo_keychains = ((external, refl), tt);
  utxo_scripts = ((our_script, refl), tt);
  script_keychains = ((external, refl), tt);
  raw_txs = ((some payment, refl), tt);
}
