-- ===== src/Wallet/Lookup.antt =====
-- How the loops of `process_tx` change the utxo that stands at an outpoint.
use sensei.Prelude.{
  ℕ, zero, suc, ◌+◌, ◌<◌, ◌≡◌, refl, Bool, true, false, ◌&&◌, Option, none, some, List, [], ◌∷◌,
  Text, ◌=text◌, =text_iff, ◌==◌, any, get_elem?, arith, Option-cases, Bool-cases, inl, inr,
  if◌then◌else◌,
}
use sensei.Sql.Laws.{find-append, find-select_apart, find-select_self}
use sensei.Codec.{hexed, hexed_iff}
use sensei.Wallet.Types.{WalletDatabase, Stored, IsUp, UtxoRow, OutPoint, TxOut, KeychainKind}
use sensei.Wallet.Queries.{by_outpoint}
use sensei.Wallet.Views.{utxo_at}
use sensei.Wallet.Spends.{without, spend}
use sensei.Wallet.Creates.{new_utxo, with_utxo, add_row, create}

infix 50 ◌=outpoint◌
abbrev pub ◌=outpoint◌ : OutPoint → OutPoint → Bool
a =outpoint b = (a.txid =text b.txid) && (a.vout == b.vout)

abbrev pub is_some {ℓ} : {A : Type ℓ} → Option A → Bool
is_some none = false
is_some (some _) = true

-- An input of ours spends the outpoint.
unfoldable pub is_spent_by : (OutPoint → Option TxOut) → List OutPoint → OutPoint → Bool
is_spent_by own ins o = any (λ i. (i =outpoint o) && is_some (own i)) ins

module _ (w : WalletDatabase) (up : IsUp w) where
  utxo_at-without :
      (i o : OutPoint) (st : Stored)
      → utxo_at w (without w i st) o ≡ (if i =outpoint o then none else utxo_at w st o)
  unfolding utxo_at
  utxo_at-without i o st = elim (Bool-cases (i =outpoint o)) [
    | inl same ↦ ground (
      arith,
      find-select_self (by_outpoint (hexed w.txid_codec o.txid) o.vout)
          (by_outpoint (hexed w.txid_codec i.txid) i.vout) st.utxos (agree same),
    )
    | inr apart ↦ ground (
      arith,
      find-select_apart (by_outpoint (hexed w.txid_codec o.txid) o.vout)
          (by_outpoint (hexed w.txid_codec i.txid) i.vout) st.utxos (disagree apart),
    )
  ]
    where
      agree :
          (i =outpoint o) ≡ true
          → (x : UtxoRow) → by_outpoint (hexed w.txid_codec o.txid) o.vout x ≡ true
          → by_outpoint (hexed w.txid_codec i.txid) i.vout x ≡ true
      agree same x hit =
          let e : i.txid ≡ o.txid = (=text_iff i.txid o.txid).0 (ground arith) in
          rw e (ground arith)

      disagree :
          (i =outpoint o) ≡ false
          → (x : UtxoRow) → by_outpoint (hexed w.txid_codec o.txid) o.vout x ≡ true
          → by_outpoint (hexed w.txid_codec i.txid) i.vout x ≡ false
      disagree apart x hit = ground (
        arith,
        =text_iff x.txid (hexed w.txid_codec o.txid),
        =text_iff x.txid (hexed w.txid_codec i.txid),
        hexed_iff w.txid_codec up.txid_law i.txid o.txid,
        =text_iff (hexed w.txid_codec i.txid) (hexed w.txid_codec o.txid),
        =text_iff i.txid o.txid,
      )

  -- A spent utxo is gone, and every other one stands.
  pub utxo_at-spend :
      (own : OutPoint → Option TxOut) (ins : List OutPoint) (o : OutPoint) (st : Stored)
      → utxo_at w (spend w own ins st) o ≡ (if is_spent_by own ins o then none else utxo_at w st o)
  unfolding spend is_spent_by
  utxo_at-spend own [] o st = refl
  utxo_at-spend own (i ∷ rest) o st = elim (Option-cases (own i)) [
    | inl foreign ↦ ground (arith, utxo_at-spend own rest o st)
    | inr (t, mine) ↦
        ground (arith, utxo_at-spend own rest o (without w i st), utxo_at-without i o st)
  ]

  utxo_at-with_utxo :
      (txid : Text) (i : ℕ) (t : TxOut) (k : KeychainKind) (o : OutPoint) (st : Stored)
      → utxo_at w (with_utxo w (new_utxo w txid i t k) st) o ≡ elim (utxo_at w st o) [
        | some r ↦ some r
        | none ↦ if (o.txid =text txid) && (o.vout == i) then some (new_utxo w txid i t k) else none
      ]
  unfolding utxo_at add_row
  utxo_at-with_utxo txid i t k o st = elim (Bool-cases ((o.txid =text txid) && (o.vout == i))) [
    | inl same ↦
        let et : o.txid ≡ txid = (=text_iff o.txid txid).0 (ground arith) in
        let ei : o.vout ≡ i = ground arith in
        rw (et, ei)
          (ground (
            arith,
            find-append (by_outpoint (hexed w.txid_codec txid) i) st.utxos (new_utxo w txid i t k),
            =text_iff (hexed w.txid_codec txid) (hexed w.txid_codec txid),
            =text_iff txid txid,
          ))
    | inr apart ↦ ground (
      arith,
      find-append (by_outpoint (hexed w.txid_codec o.txid) o.vout) st.utxos (new_utxo w txid i t k),
      =text_iff (hexed w.txid_codec txid) (hexed w.txid_codec o.txid),
      hexed_iff w.txid_codec up.txid_law txid o.txid,
      =text_iff o.txid txid,
    )
  ]

  -- The utxo that the outputs from position `i` on make at an outpoint.
  unfoldable pub created :
      (Text → Option (KeychainKind × ℕ)) → Text → ℕ → List TxOut → OutPoint → Option UtxoRow
  created path txid i [] o = none
  created path txid i (t ∷ rest) o = elim (path t.script_pubkey) [
    | none ↦ created path txid (i + 1) rest o
    | some (k, child) ↦
        let later = created path txid (i + 1) rest o in
        if (o.txid =text txid) && (o.vout == i) then some (new_utxo w txid i t k) else later
  ]

  -- A new utxo never replaces one that stands.
  utxo_at-create :
      (path : Text → Option (KeychainKind × ℕ)) (txid : Text) (i : ℕ) (outs : List TxOut)
      (o : OutPoint) (st : Stored)
      → utxo_at w (create w path txid i outs st) o
        ≡ elim (utxo_at w st o) [ some r ↦ some r | none ↦ created path txid i outs o ]
  unfolding create created
  utxo_at-create path txid i [] o st = ground arith
  utxo_at-create path txid i (t ∷ rest) o st = elim (Option-cases (path t.script_pubkey)) [
    | inl foreign ↦ ground (arith, utxo_at-create path txid (i + 1) rest o st)
    | inr ((k, child), mine) ↦ ground (
      arith,
      utxo_at-create path txid (i + 1) rest o (with_utxo w (new_utxo w txid i t k) st),
      utxo_at-with_utxo txid i t k o st,
    )
  ]

abbrev pick :
    (w : WalletDatabase) (path : Text → Option (KeychainKind × ℕ)) (txid : Text) (vout : ℕ)
    → Option TxOut
    → Option UtxoRow
pick w path txid vout none = none
pick w path txid vout (some t) = elim (path t.script_pubkey) [
  | none ↦ none
  | some (k, child) ↦ some (new_utxo w txid vout t k)
]

-- The utxo that a transaction with this txid and these outputs makes at an outpoint: its output lies
-- at that position and pays to a script of ours.
unfoldable pub new_at :
    (w : WalletDatabase) (path : Text → Option (KeychainKind × ℕ)) (txid : Text) (outs : List TxOut)
    (o : OutPoint)
    → Option UtxoRow
new_at w path txid outs o =
    if o.txid =text txid then pick w path txid o.vout (get_elem? outs o.vout) else none

module _ (w : WalletDatabase) (up : IsUp w) (path : Text → Option (KeychainKind × ℕ))
    (txid : Text) where
  created_below :
      (i : ℕ) (outs : List TxOut) (o : OutPoint)
      → o.vout < i
      → created w up path txid i outs o ≡ none
  unfolding created
  created_below i [] o h = refl
  created_below i (t ∷ rest) o h = ground (arith, created_below (i + 1) rest o)

  created_at :
      (i d : ℕ) (outs : List TxOut) (o : OutPoint)
      → o.vout ≡ i + d
      → created w up path txid i outs o
        ≡ (if o.txid =text txid then pick w path txid o.vout (get_elem? outs d) else none)
  unfolding created
  created_at i d [] o e = ground arith
  created_at i zero (t ∷ rest) o e =
      let here : o.vout ≡ i = omega arith in ground (arith, created_below (i + 1) rest o)
  created_at i (suc d) (t ∷ rest) o e = ground (arith, created_at (i + 1) d rest o)

  pub utxo_at-outputs :
      (outs : List TxOut) (o : OutPoint) (st : Stored)
      → utxo_at w (create w path txid 0 outs st) o
        ≡ elim (utxo_at w st o) [ some r ↦ some r | none ↦ new_at w path txid outs o ]
  unfolding new_at
  utxo_at-outputs outs o st =
      ground
        (arith, utxo_at-create w up path txid 0 outs o st, created_at 0 o.vout outs o (omega arith))
