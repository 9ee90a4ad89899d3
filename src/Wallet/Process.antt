-- ===== src/Wallet/Process.antt =====
-- senseicore/src/chain/database.rs, lines 151 to 260: how the wallet takes in one transaction.
use sensei.Prelude.{
  ℕ, ◌+◌, ◌-◌, ◌%◌, ◌^◌, Bool, true, false, ◌&&◌, ◌||◌, Option, none, some, List, [], ◌∷◌,
  unwrap_or, ltb, if◌then◌else◌,
}
use sensei.Codec.{hexed}
use sensei.Wallet.Types.{
  WalletDatabase, OutPoint, TxOut, Transaction, KeychainKind, external, internal, ◌=kind◌,
}
use sensei.Wallet.Store.{Action, ◌>>=◌, ◌>>◌, pure, unwrapped}
use sensei.Wallet.Queries.{get_utxo}
use sensei.Wallet.Operations.{set_utxo, del_utxo, set_tx, set_last_index}
use sensei.Wallet.Reads.{get_previous_output, is_mine, get_path_from_script_pubkey, get_last_index}

-- `+=` on `u64`, in a release build.
abbrev pub add_u64 : ℕ → ℕ → ℕ
add_u64 a b = (a + b) % 2 ^ 64

-- The highest child index paid so far, of each keychain.
pub record MaxDeriv : Type 0 where
  pub internal_max : Option ℕ
  pub external_max : Option ℕ

abbrev pub no_deriv : MaxDeriv
no_deriv = record { internal_max = none; external_max = none }

-- `max.is_none() || child > max.unwrap_or(0)`
abbrev pub exceeds : ℕ → Option ℕ → Bool
exceeds child none = true
exceeds child (some m) = ltb m child

abbrev pub raise : KeychainKind → ℕ → MaxDeriv → MaxDeriv
raise keychain child m =
    if (keychain =kind internal) && exceeds child m.internal_max
    then record m { internal_max = some child }
    else if (keychain =kind external) && exceeds child m.external_max
    then record m { external_max = some child }
    else m

-- `max_deriv.map(|x| x + 1).unwrap_or(0)`
abbrev pub first_unused : Option ℕ → ℕ
first_unused none = 0
first_unused (some x) = x + 1

module _ (w : WalletDatabase) where
  -- The loop over the inputs: `outgoing` and `inputs_sum`.
  unfoldable pub process_inputs : List OutPoint → ℕ → ℕ → Action (ℕ × ℕ)
  process_inputs [] outgoing inputs_sum = pure (outgoing, inputs_sum)
  process_inputs (input ∷ rest) outgoing inputs_sum = do
    previous ← unwrapped (get_previous_output w input)
    elim previous [
      | none ↦ process_inputs rest outgoing inputs_sum
      | some output ↦ (do
        mine ← unwrapped (is_mine w output.script_pubkey)
        elim mine [
          | false ↦ process_inputs rest outgoing (add_u64 inputs_sum output.value)
          | true ↦ (do
            _ ← unwrapped (del_utxo w input)
            process_inputs rest (add_u64 outgoing output.value) (add_u64 inputs_sum output.value))
        ])
    ]

  -- An output that is ours becomes a utxo, if it is not one already. `i as i32` and `i as u32` keep
  -- the low 32 bits of the position.
  unfoldable pub add_output : Transaction → ℕ → TxOut → KeychainKind → Action (Unit {0})
  add_output tx i output keychain = do
    existing ← unwrapped (get_utxo w (hexed w.txid_codec tx.txid) (i % 2 ^ 32))
    elim existing [
      | some _ ↦ pure tt
      | none ↦ unwrapped (
          set_utxo w (record {
            outpoint = record { txid = tx.txid; vout = i % 2 ^ 32 };
            txout = output;
            keychain = keychain;
            is_spent = false;
          }))
    ]

  -- The loop over the outputs, from position `i` on: `incoming`, `outputs_sum` and the indexes.
  unfoldable pub process_outputs :
      Transaction → ℕ → List TxOut → ℕ → ℕ → MaxDeriv → Action (ℕ × ℕ × MaxDeriv)
  process_outputs tx i [] incoming outputs_sum m = pure (incoming, outputs_sum, m)
  process_outputs tx i (output ∷ rest) incoming outputs_sum m = do
    path ← unwrapped (get_path_from_script_pubkey w output.script_pubkey)
    elim path [
      | none ↦ process_outputs tx (i + 1) rest incoming (add_u64 outputs_sum output.value) m
      | some (keychain, child) ↦ (do
        add_output tx i output keychain
        process_outputs tx (i + 1) rest (add_u64 incoming output.value)
            (add_u64 outputs_sum output.value) (raise keychain child m))
    ]

  unfoldable pub process_tx : Transaction → Option ℕ → Option ℕ → MaxDeriv → Action MaxDeriv
  process_tx tx confirmation_height confirmation_time m = do
    (outgoing, inputs_sum) ← process_inputs tx.input 0 0
    (incoming, outputs_sum, m') ← process_outputs tx 0 tx.output 0 0 m
    (if ltb 0 incoming || ltb 0 outgoing
        then unwrapped (
            set_tx w (record {
              transaction = some tx;
              txid = tx.txid;
              received = incoming;
              sent = outgoing;
              confirmation_time = w.block_time confirmation_height confirmation_time;
              fee = some (inputs_sum - outputs_sum);
            }))
        else pure tt)
    pure m'

  -- Raises a keychain's index to one past the highest child that was paid.
  unfoldable pub bump_index : KeychainKind → Option ℕ → Action (Unit {0})
  bump_index keychain max_deriv = do
    found ← unwrapped (get_last_index w keychain)
    let current = unwrap_or 0 found
    let first_new = first_unused max_deriv
    if ltb current first_new then unwrapped (set_last_index w keychain first_new) else pure tt

  unfoldable pub process_mempool_tx : Transaction → Action (Unit {0})
  process_mempool_tx tx = do
    m ← process_tx tx none none no_deriv
    bump_index external m.external_max
    bump_index internal m.internal_max
