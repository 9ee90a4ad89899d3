-- ===== src/Wallet/Store.antt =====
-- senseicore/src/chain/database.rs, lines 262 to 640: the queries of the wallet. An action runs on
-- the tables and leaves what it wrote also when it fails: there is no transaction around it.
use sensei.Prelude.{ℕ, List, Outcome, ok, err, panic, ltb, ◌^◌, if◌then◌else◌}
use sensei.Sql.{DbErr}
use sensei.Wallet.Types.{
  WalletDatabase, Stored, UtxoRow, TransactionRow, ScriptPubkeyRow, KeychainRow, has_checksum,
  KvRow, OutPoint,
}
use sensei.State.{Run}
pub use sensei.State.{◌>>=◌, ◌>>◌, pure, lift, unwrapped}

-- `bdk::Error`, as far as the wallet raises it.
pub data Error : Type 0 where
  generic json encode checksum_mismatch : Error
  invalid_outpoint : OutPoint → Error

abbrev pub Action {ℓ} : Type ℓ → Type ℓ
Action A = Run Stored Error A

-- `u32` to `i32` and `u64` to `i64`, both by `try_into().unwrap()`.
abbrev pub to_signed : ℕ → ℕ → Outcome Error ℕ
to_signed bits n = if ltb n (2 ^ bits) then ok n else panic

-- `.map_err(|e| bdk::Error::Generic(e.to_string()))` on a query.
abbrev pub read {ℓ} : {A : Type ℓ} → Outcome DbErr A → Action A
read (ok a) st = (ok a, st)
read (err e) st = (err generic, st)
read panic st = (panic, st)

-- The same on a write, whose rows go back into the tables.
abbrev pub write :
    {Row : Type 0}
    → Outcome DbErr (List Row)
    → (List Row → Stored)
    → Stored
    → Outcome Error (Unit {0}) × Stored
write (ok rows) put st = (ok tt, put rows)
write (err e) put st = (err generic, st)
write panic put st = (panic, st)

module _ (w : WalletDatabase) where
  unfoldable pub insert_utxo : UtxoRow → Action (Unit {0})
  insert_utxo r st = write (w.utxo.insert r st.utxos) (λ rows. record st { utxos = rows }) st

  -- The row is read back as the model, which fails after the write where it has no checksum.
  unfoldable pub insert_keychain : KeychainRow → Action (Unit {0})
  insert_keychain r = do
    (λ st. write (w.keychain.insert r st.keychains) (λ rows. record st { keychains = rows }) st)
    lift (if has_checksum r then ok tt else err generic)

  unfoldable pub insert_kv_store : KvRow → Action (Unit {0})
  insert_kv_store r st =
      write (w.kv_store.insert r st.kv_store) (λ rows. record st { kv_store = rows }) st

  unfoldable pub insert_script_pubkey : ScriptPubkeyRow → Action (Unit {0})
  insert_script_pubkey r st =
      write (w.script_pubkey.insert r st.script_pubkeys)
        (λ rows. record st { script_pubkeys = rows }) st

  unfoldable pub insert_transaction : TransactionRow → Action (Unit {0})
  insert_transaction r st =
      write (w.transaction.insert r st.transactions) (λ rows. record st { transactions = rows }) st

  unfoldable pub update_utxo : UtxoRow → Action (Unit {0})
  update_utxo r st = write (w.utxo.update r st.utxos) (λ rows. record st { utxos = rows }) st

  unfoldable pub update_transaction : TransactionRow → Action (Unit {0})
  update_transaction r st =
      write (w.transaction.update r st.transactions) (λ rows. record st { transactions = rows }) st

  unfoldable pub update_script_pubkey : ScriptPubkeyRow → Action (Unit {0})
  update_script_pubkey r st =
      write (w.script_pubkey.update r st.script_pubkeys)
        (λ rows. record st { script_pubkeys = rows }) st

  unfoldable pub update_keychain : KeychainRow → Action (Unit {0})
  update_keychain r st =
      write (w.keychain.update r st.keychains) (λ rows. record st { keychains = rows }) st

  unfoldable pub update_kv_store : KvRow → Action (Unit {0})
  update_kv_store r st =
      write (w.kv_store.update r st.kv_store) (λ rows. record st { kv_store = rows }) st

  unfoldable pub delete_utxo : UtxoRow → Action (Unit {0})
  delete_utxo r st = write (w.utxo.delete r st.utxos) (λ rows. record st { utxos = rows }) st

  unfoldable pub delete_transaction : TransactionRow → Action (Unit {0})
  delete_transaction r st =
      write (w.transaction.delete r st.transactions) (λ rows. record st { transactions = rows }) st

  unfoldable pub delete_script_pubkey : ScriptPubkeyRow → Action (Unit {0})
  delete_script_pubkey r st =
      write (w.script_pubkey.delete r st.script_pubkeys)
        (λ rows. record st { script_pubkeys = rows }) st

  unfoldable pub delete_keychain : KeychainRow → Action (Unit {0})
  delete_keychain r st =
      write (w.keychain.delete r st.keychains) (λ rows. record st { keychains = rows }) st

  unfoldable pub delete_kv_store : KvRow → Action (Unit {0})
  delete_kv_store r st =
      write (w.kv_store.delete r st.kv_store) (λ rows. record st { kv_store = rows }) st
