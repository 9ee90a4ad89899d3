-- ===== src/Wallet/Creates.antt =====
-- The loop over the outputs of a transaction: every output of ours becomes a utxo.
use sensei.Prelude.{
  ℕ, ◌+◌, ◌<◌, ◌≤◌, ◌%◌, ◌^◌, ◌≡◌, refl, ap, ◌∙◌, false, Option, none, some, List, [], ◌∷◌, ◌++◌,
  Text, ok, find, All, length, arith, Option-cases, inl, inr,
}
use sensei.Sql.Laws.{any-find, All-snoc}
use sensei.Codec.{hexed}
use sensei.Wallet.Types.{
  WalletDatabase, Stored, IsUp, UtxoRow, TxOut, Transaction, KeychainKind, same_utxo,
}
use sensei.Wallet.Store.{insert_utxo, write}
use sensei.Wallet.Queries.{by_outpoint}
use sensei.Wallet.Operations.{set_utxo}
use sensei.Wallet.Process.{add_u64, MaxDeriv, raise, add_output, process_outputs}
use sensei.Wallet.Views.{IsReadable, path_of, get_utxo_lem, get_path_from_script_pubkey_lem}

unfoldable pub add_row : UtxoRow → List UtxoRow → List UtxoRow
add_row row rows = elim (find (by_outpoint row.txid row.vout) rows) [
  | none ↦ rows ++ row ∷ []
  | some _ ↦ rows
]

module _ (w : WalletDatabase) where
  -- The row of a new utxo.
  abbrev pub new_utxo : Text → ℕ → TxOut → KeychainKind → UtxoRow
  new_utxo txid i output keychain = record {
    node_id = w.node_id;
    value = output.value;
    keychain = w.keychain_codec.encode keychain;
    vout = i;
    txid = hexed w.txid_codec txid;
    script = hexed w.script_codec output.script_pubkey;
    is_spent = false;
  }

  -- The tables with one more utxo, unless they have it.
  abbrev pub with_utxo : UtxoRow → Stored → Stored
  with_utxo row st = record st { utxos = add_row row st.utxos }

  unfoldable pub create :
      (Text → Option (KeychainKind × ℕ)) → Text → ℕ → List TxOut → Stored → Stored
  create path txid i [] st = st
  create path txid i (output ∷ rest) st = elim (path output.script_pubkey) [
    | none ↦ create path txid (i + 1) rest st
    | some (keychain, child) ↦
        create path txid (i + 1) rest (with_utxo (new_utxo txid i output keychain) st)
  ]

-- What the loop adds up: the outputs that are ours, all outputs, and the indexes that are paid.
unfoldable pub incoming_from : (Text → Option (KeychainKind × ℕ)) → ℕ → List TxOut → ℕ
incoming_from path acc [] = acc
incoming_from path acc (output ∷ rest) = elim (path output.script_pubkey) [
  | none ↦ incoming_from path acc rest
  | some _ ↦ incoming_from path (add_u64 acc output.value) rest
]

unfoldable pub total_from : ℕ → List TxOut → ℕ
total_from acc [] = acc
total_from acc (output ∷ rest) = total_from (add_u64 acc output.value) rest

unfoldable pub derivs : (Text → Option (KeychainKind × ℕ)) → MaxDeriv → List TxOut → MaxDeriv
derivs path m [] = m
derivs path m (output ∷ rest) = elim (path output.script_pubkey) [
  | none ↦ derivs path m rest
  | some (keychain, child) ↦ derivs path (raise keychain child m) rest
]

module _ (w : WalletDatabase) (up : IsUp w) where
  insert_new :
      (row : UtxoRow) (st : Stored)
      → find (by_outpoint row.txid row.vout) st.utxos ≡ none
      → insert_utxo w row st ≡ (ok tt, record st { utxos = st.utxos ++ row ∷ [] })
  unfolding insert_utxo
  insert_new row st missing =
      let law : w.utxo.insert row st.utxos ≡ ok (st.utxos ++ row ∷ []) =
        up.utxo_law.insert_lem row st.utxos ∙ ground (arith, any-find (same_utxo row) st.utxos) in
      ap (λ r. write r (λ rows. record st { utxos = rows }) st) law

  add_output_lem :
      (tx : Transaction) (i : ℕ) (output : TxOut) (keychain : KeychainKind) (st : Stored)
      → i < 2 ^ 31
      → output.value < 2 ^ 63
      → add_output w tx i output keychain st
        ≡ (ok tt, with_utxo w (new_utxo w tx.txid i output keychain) st)
  unfolding add_output set_utxo add_row
  add_output_lem tx i output keychain st small fits =
      let low : i % 2 ^ 32 ≡ i = omega arith in
      let query = get_utxo_lem w up (hexed w.txid_codec tx.txid) i st in
      elim (Option-cases (find (by_outpoint (hexed w.txid_codec tx.txid) i) st.utxos)) [
        | inl missing ↦
            ground (arith, query, insert_new (new_utxo w tx.txid i output keychain) st missing)
        | inr (row, found) ↦ ground (arith, query)
      ]

  add_row-All :
      (P : UtxoRow → Type 0) (row : UtxoRow) (rows : List UtxoRow)
      → All P rows
      → P row
      → All P (add_row row rows)
  unfolding add_row
  add_row-All P row rows h p = elim (Option-cases (find (by_outpoint row.txid row.vout) rows)) [
    | inl missing ↦ rw (missing, add_row) (All-snoc P rows row h p)
    | inr (old, found) ↦ rw (found, add_row) h
  ]

  with_utxo-IsReadable :
      (txid : Text) (i : ℕ) (output : TxOut) (keychain : KeychainKind) (st : Stored)
      → IsReadable w st
      → IsReadable w (with_utxo w (new_utxo w txid i output keychain) st)
  with_utxo-IsReadable txid i output keychain st readable = record {
    utxo_keychains = add_row-All _ _ st.utxos readable.utxo_keychains (keychain, refl);
    utxo_scripts = add_row-All _ _ st.utxos readable.utxo_scripts (output.script_pubkey, refl);
    script_keychains = readable.script_keychains;
    raw_txs = readable.raw_txs;
  }

  path_of-with_utxo : (row : UtxoRow) (st : Stored) → path_of w (with_utxo w row st) ≡ path_of w st
  unfolding path_of
  path_of-with_utxo row st = refl

  output_step :
      (tx : Transaction) (i : ℕ) (output : TxOut) (rest : List TxOut) (incoming total : ℕ)
      (m : MaxDeriv) (st : Stored)
      → IsReadable w st
      → i < 2 ^ 31
      → output.value < 2 ^ 63
      → process_outputs w tx i (output ∷ rest) incoming total m st
        ≡ process_outputs w tx
            (i + 1)
            rest
            (incoming_from (path_of w st) incoming (output ∷ []))
            (add_u64 total output.value)
            (derivs (path_of w st) m (output ∷ []))
            (create w (path_of w st) tx.txid i (output ∷ []) st)
  unfolding process_outputs incoming_from derivs create
  output_step tx i output rest incoming total m st readable small fits =
      let query = get_path_from_script_pubkey_lem w up st readable output.script_pubkey in
      elim (Option-cases (path_of w st output.script_pubkey)) [
        | inl foreign ↦ ground (arith, query)
        | inr ((keychain, child), mine) ↦
            ground (arith, query, add_output_lem tx i output keychain st small fits)
      ]

  -- One output leaves tables that can be read, and in which the same scripts are ours.
  create_one :
      (txid : Text) (i : ℕ) (output : TxOut) (st : Stored)
      → IsReadable w st
      → let st' = create w (path_of w st) txid i (output ∷ []) st in
        IsReadable w st' × (path_of w st' ≡ path_of w st)
  unfolding create
  create_one txid i output st readable = elim (Option-cases (path_of w st output.script_pubkey)) [
    | inl foreign ↦ rw (foreign, create) (readable, refl)
    | inr ((keychain, child), mine) ↦
        rw (mine, create)
          (with_utxo-IsReadable txid i output keychain st readable, path_of-with_utxo _ st)
  ]

  outputs_cons :
      (path : Text → Option (KeychainKind × ℕ)) (txid : Text) (i acc : ℕ) (m : MaxDeriv)
      (output : TxOut) (rest : List TxOut) (st : Stored)
      → (create w path txid i (output ∷ rest) st
          ≡ create w path txid (i + 1) rest (create w path txid i (output ∷ []) st))
        × (incoming_from path acc (output ∷ rest)
            ≡ incoming_from path (incoming_from path acc (output ∷ [])) rest)
        × (derivs path m (output ∷ rest) ≡ derivs path (derivs path m (output ∷ [])) rest)
  unfolding create incoming_from derivs
  outputs_cons path txid i acc m output rest st = ground arith

  total_from-cons :
      (acc : ℕ) (output : TxOut) (rest : List TxOut)
      → total_from acc (output ∷ rest) ≡ total_from (add_u64 acc output.value) rest
  unfolding total_from
  total_from-cons acc output rest = refl

  -- The loop over the outputs, from position `i` on.
  pub process_outputs_lem :
      (tx : Transaction) (i : ℕ) (outs : List TxOut) (incoming total : ℕ) (m : MaxDeriv)
      (st : Stored)
      → IsReadable w st
      → i + length outs ≤ 2 ^ 31
      → All (λ (t : TxOut). t.value < 2 ^ 63) outs
      → (process_outputs w tx i outs incoming total m st ≡ (
        ok (
          incoming_from (path_of w st) incoming outs,
          total_from total outs,
          derivs (path_of w st) m outs,
        ),
        create w (path_of w st) tx.txid i outs st,
      ))
        × IsReadable w (create w (path_of w st) tx.txid i outs st)
  process_outputs_lem tx i [] incoming total m st readable small fits = (
    unfold process_outputs incoming_from total_from derivs create in refl,
    unfold create in readable,
  )
  process_outputs_lem tx i (output ∷ rest) incoming total m st readable small fits =
      let path = path_of w st in
      let st' = create w path tx.txid i (output ∷ []) st in
      let (kept, same) = create_one tx.txid i output st readable in
      let (ec, ei, ed) = outputs_cons path tx.txid i incoming m output rest st in
      let (run, good) =
        process_outputs_lem tx (i + 1) rest (incoming_from path incoming (output ∷ []))
          (add_u64 total output.value) (derivs path m (output ∷ [])) st' kept (omega arith)
          fits.1 in
      rw (ec, ei, ed, total_from-cons total output rest)
        (
          output_step tx i output rest incoming total m st readable (omega arith) fits.0
              ∙ (rw same at run),
          rw same at good,
        )
