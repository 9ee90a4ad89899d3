-- ===== src/Wallet/Spends.antt =====
-- The loop over the inputs of a transaction: every utxo that an input of ours spends is removed.
use sensei.Prelude.{
  ℕ, ◌<◌, ◌^◌, ◌≡◌, refl, ap, ◌∙◌, true, not, Option, none, some, List, [], ◌∷◌, Text, =text_iff,
  ok, find, select, All, arith, Option-cases, inl, inr,
}
use sensei.Sql.Laws.{find-All, find_sound, select-All, select_missing}
use sensei.Codec.{hexed, unhexed, unhexed-hexed}
use sensei.Wallet.Types.{WalletDatabase, Stored, IsUp, UtxoRow, OutPoint, TxOut, LocalUtxo}
use sensei.Wallet.Store.{delete_utxo, encode, write}
use sensei.Wallet.Queries.{by_outpoint}
use sensei.Wallet.Operations.{del_utxo}
use sensei.Wallet.Process.{add_u64, process_inputs}
use sensei.Wallet.Views.{
  Encodes, IsReadable, path_of, output_of, raw_tx_of, IsInRange, get_utxo_lem, is_mine_lem,
  get_previous_output_lem,
}

module _ (w : WalletDatabase) where
  -- The tables without the utxo at an outpoint.
  abbrev pub without : OutPoint → Stored → Stored
  without o st = record st {
    utxos = select (λ r. not (by_outpoint (hexed w.txid_codec o.txid) o.vout r)) st.utxos;
  }

  pub without-IsReadable :
      (o : OutPoint) (st : Stored) → IsReadable w st → IsReadable w (without o st)
  without-IsReadable o st readable = record {
    utxo_keychains = select-All _ _ st.utxos readable.utxo_keychains;
    utxo_scripts = select-All _ _ st.utxos readable.utxo_scripts;
    script_keychains = readable.script_keychains;
    raw_txs = readable.raw_txs;
  }

  -- The output that an input spends, if it is ours.
  unfoldable pub own_output : Stored → OutPoint → Option TxOut
  own_output st o = elim (output_of w st o) [
    | none ↦ none
    | some output ↦ elim (path_of w st output.script_pubkey) [ none ↦ none | some _ ↦ some output ]
  ]

  module _ (up : IsUp w) where
    delete_found :
        (o : OutPoint) (st : Stored) (row : UtxoRow)
        → by_outpoint (hexed w.txid_codec o.txid) o.vout row ≡ true
        → delete_utxo w row st ≡ (ok tt, without o st)
    unfolding delete_utxo
    delete_found o st row hit =
        let txid : row.txid ≡ hexed w.txid_codec o.txid = (=text_iff row.txid _).0 (ground arith) in
        let vout : row.vout ≡ o.vout = ground arith in
        ap (λ r. write r (λ rows. record st { utxos = rows }) st)
          (up.utxo_law.delete_lem row st.utxos)
        ∙ ap
            (λ (key : Text × ℕ).
              (ok tt, record st { utxos = select (λ r. not (by_outpoint key.0 key.1 r)) st.utxos }))
            (λ i. (txid i, vout i))

    pub del_utxo_lem :
        (o : OutPoint) (st : Stored)
        → IsReadable w st
        → o.vout < 2 ^ 31
        → (u : Option LocalUtxo) × (del_utxo w o st ≡ (ok u, without o st))
    unfolding del_utxo
    del_utxo_lem o st readable small =
        let p = by_outpoint (hexed w.txid_codec o.txid) o.vout in
        elim (Option-cases (find p st.utxos)) [
          | inl missing ↦ (
            none,
            ground (
              arith,
              get_utxo_lem w up (hexed w.txid_codec o.txid) o.vout st,
              select_missing p st.utxos missing,
            ),
          )
          | inr (row, found) ↦
              let (k, ek) =
                find-All (λ r. Encodes w.keychain_codec r.keychain) p st.utxos row
                  readable.utxo_keychains found in
              let (s, es) =
                find-All (λ r. (s : Text) × (r.script ≡ hexed w.script_codec s)) p st.utxos row
                  readable.utxo_scripts found in
              (
                some (record {
                  outpoint = o;
                  txout = record { value = row.value; script_pubkey = s };
                  keychain = k;
                  is_spent = row.is_spent;
                }),
                ground (
                  arith,
                  get_utxo_lem w up (hexed w.txid_codec o.txid) o.vout st,
                  ap w.keychain_codec.decode ek ∙ up.keychain_codec_law.decode-encode k,
                  ap (unhexed w.script_codec encode) es
                      ∙ unhexed-hexed w.script_codec up.script_law encode s,
                  delete_found o st row (find_sound p st.utxos row found),
                ),
              )
        ]

  -- An input that the loop can take: it lies inside its transaction, where the wallet knows that.
  abbrev pub IsSpendable : Stored → OutPoint → Type 0
  IsSpendable st o = IsInRange w st o × (o.vout < 2 ^ 31)

  -- What the loop leaves of the tables.
  unfoldable pub spend : (OutPoint → Option TxOut) → List OutPoint → Stored → Stored
  spend own [] st = st
  spend own (o ∷ rest) st = elim (own o) [
    | none ↦ spend own rest st
    | some _ ↦ spend own rest (without o st)
  ]

  own_output-without : (o : OutPoint) (st : Stored) → own_output (without o st) ≡ own_output st
  unfolding own_output output_of raw_tx_of path_of
  own_output-without o st = refl

  output_of-without : (o : OutPoint) (st : Stored) → output_of w (without o st) ≡ output_of w st
  unfolding output_of raw_tx_of
  output_of-without o st = refl

  IsSpendable-without :
      (o : OutPoint) (st : Stored) (ins : List OutPoint)
      → All (IsSpendable st) ins
      → All (IsSpendable (without o st)) ins
  unfolding raw_tx_of
  IsSpendable-without o st [] h = tt
  IsSpendable-without o st (i ∷ ins) h = (h.0, IsSpendable-without o st ins h.1)

-- The values of the outputs that a lookup finds, added as the loops add them.
unfoldable pub sum_from : (OutPoint → Option TxOut) → ℕ → List OutPoint → ℕ
sum_from output acc [] = acc
sum_from output acc (o ∷ rest) = elim (output o) [
  | none ↦ sum_from output acc rest
  | some t ↦ sum_from output (add_u64 acc t.value) rest
]

sum_from-cons :
    (output : OutPoint → Option TxOut) (acc : ℕ) (o : OutPoint) (rest : List OutPoint)
    → sum_from output acc (o ∷ rest) ≡ sum_from output (sum_from output acc (o ∷ [])) rest
unfolding sum_from
sum_from-cons output acc o rest = ground arith

spend-cons :
    (w : WalletDatabase) (own : OutPoint → Option TxOut) (o : OutPoint) (rest : List OutPoint)
    (st : Stored)
    → spend w own (o ∷ rest) st ≡ spend w own rest (spend w own (o ∷ []) st)
unfolding spend
spend-cons w own o rest st = ground arith

-- What one input leaves can be read as before, and the other inputs find what they found.
record IsLike (w : WalletDatabase) (ins : List OutPoint) (st st' : Stored) : Type 0 where
  readable : IsReadable w st'
  own : own_output w st' ≡ own_output w st
  known : output_of w st' ≡ output_of w st
  spendable : All (IsSpendable w st') ins

module _ (w : WalletDatabase) (up : IsUp w) where
  spend_one :
      (o : OutPoint) (ins : List OutPoint) (st : Stored)
      → IsReadable w st
      → All (IsSpendable w st) ins
      → IsLike w ins st (spend w (own_output w st) (o ∷ []) st)
  unfolding spend
  spend_one o ins st readable h = elim (Option-cases (own_output w st o)) [
    | inl foreign ↦
        rw (foreign, spend)
          (record { readable = readable; own = refl; known = refl; spendable = h })
    | inr (t, mine) ↦
        rw (mine, spend)
          (record {
            readable = without-IsReadable w o st readable;
            own = own_output-without w o st;
            known = output_of-without w o st;
            spendable = IsSpendable-without w o st ins h;
          })
  ]

  spend_step :
      (o : OutPoint) (rest : List OutPoint) (og sum : ℕ) (st : Stored)
      → IsReadable w st
      → IsSpendable w st o
      → process_inputs w (o ∷ rest) og sum st
        ≡ process_inputs w rest
            (sum_from (own_output w st) og (o ∷ []))
            (sum_from (output_of w st) sum (o ∷ []))
            (spend w (own_output w st) (o ∷ []) st)
  unfolding process_inputs sum_from spend own_output
  spend_step o rest og sum st readable (inside, small) = elim (Option-cases (output_of w st o)) [
    | inl unknown ↦ ground (arith, get_previous_output_lem w up st readable o inside)
    | inr (t, known) ↦ elim (Option-cases (path_of w st t.script_pubkey)) [
      | inl foreign ↦ ground (
        arith,
        get_previous_output_lem w up st readable o inside,
        is_mine_lem w up st readable t.script_pubkey,
      )
      | inr (path, mine) ↦
          let (u, deleted) = del_utxo_lem w up o st readable small in
          ground (
            arith,
            get_previous_output_lem w up st readable o inside,
            is_mine_lem w up st readable t.script_pubkey,
          )
    ]
  ]

  -- The loop over the inputs, on tables that it can read.
  pub process_inputs_lem :
      (ins : List OutPoint) (og sum : ℕ) (st : Stored)
      → IsReadable w st
      → All (IsSpendable w st) ins
      → (process_inputs w ins og sum st ≡ (
        ok (sum_from (own_output w st) og ins, sum_from (output_of w st) sum ins),
        spend w (own_output w st) ins st,
      ))
        × IsReadable w (spend w (own_output w st) ins st)
  process_inputs_lem [] og sum st readable h =
      (unfold process_inputs sum_from spend in refl, unfold spend in readable)
  process_inputs_lem (o ∷ rest) og sum st readable h =
      let own = own_output w st in
      let known = output_of w st in
      let like = spend_one o rest st readable h.1 in
      let (run, kept) =
        process_inputs_lem rest (sum_from own og (o ∷ [])) (sum_from known sum (o ∷ []))
          (spend w own (o ∷ []) st) like.readable like.spendable in
      rw (sum_from-cons own og o rest, sum_from-cons known sum o rest, spend-cons w own o rest st)
        (
          spend_step o rest og sum st readable h.0 ∙ (rw (like.own, like.known) at run),
          rw like.own at kept,
        )
