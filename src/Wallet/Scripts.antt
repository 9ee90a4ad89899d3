-- ===== src/Wallet/Scripts.antt =====
-- The scripts that the wallet derives: `set_script_pubkey` against the two lookups
-- (senseicore/src/chain/database.rs).
use sensei.Prelude.{
  ℕ, ◌<◌, ◌^◌, ◌≡◌, refl, ap, ◌∙◌, Bool, true, false, ◌&&◌, ◌==◌, none, some, [], ◌∷◌, ◌++◌, Text,
  ◌=text◌, =text_iff, ok, find, any, arith, Option-cases, inl, inr, if◌then◌else◌,
}
use sensei.Codec.{hexed, unhexed, unhexed-hexed}
use sensei.Sql.Laws.{find-append, find_sound, update_key, find-put, any-find, put}
use sensei.Wallet.Types.{
  WalletDatabase, Stored, IsUp, ScriptPubkeyRow, KeychainKind, same_script_pubkey,
}
use sensei.Wallet.Store.{encode, read, write, insert_script_pubkey, update_script_pubkey}
use sensei.Wallet.Queries.{by_path, get_script_pubkey_by_path}
use sensei.Wallet.Operations.{keychain_column, set_script_pubkey}
use sensei.Wallet.Reads.{get_script_pubkey_from_path}

module _ (w : WalletDatabase) where
  abbrev path_key : KeychainKind → ℕ → ScriptPubkeyRow → Bool
  path_key k child = by_path w (keychain_column w k) child

  abbrev new_row : Text → KeychainKind → ℕ → ScriptPubkeyRow
  new_row script k child = record {
    node_id = w.node_id;
    keychain = keychain_column w k;
    child = child;
    script = hexed w.script_codec script;
  }

  -- The derived scripts after `set_script_pubkey`.
  unfoldable derived : Text → KeychainKind → ℕ → Stored → Stored
  derived script k child st = elim (find (path_key k child) st.script_pubkeys) [
    | none ↦ record st { script_pubkeys = st.script_pubkeys ++ new_row script k child ∷ [] }
    | some row ↦ record st {
      script_pubkeys =
          put (path_key k child) (record row { script = hexed w.script_codec script })
            st.script_pubkeys;
    }
  ]

module _ (w : WalletDatabase) (up : IsUp w) where
  by_path_lem :
      (k : KeychainKind) (child : ℕ) (st : Stored)
      → get_script_pubkey_by_path w (keychain_column w k) child st
        ≡ (ok (find (path_key w k child) st.script_pubkeys), st)
  unfolding get_script_pubkey_by_path
  by_path_lem k child st = ap (λ r. read r st) (up.script_pubkey_law.one_lem _ st.script_pubkeys)

  same_by_path :
      (k : KeychainKind) (child : ℕ) (row : ScriptPubkeyRow)
      → path_key w k child row ≡ true
      → same_script_pubkey row ≡ path_key w k child
  same_by_path k child row hit =
      let node : row.node_id ≡ w.node_id = (=text_iff row.node_id w.node_id).0 (ground arith) in
      let key : row.keychain ≡ keychain_column w k = (=text_iff row.keychain _).0 (ground arith) in
      let index : row.child ≡ child = ground arith in
      λ i x. (x.node_id =text node i) && ((x.keychain =text key i) && (x.child == index i))

  set_script_pubkey_run :
      (script : Text) (k : KeychainKind) (child : ℕ) (st : Stored)
      → child < 2 ^ 31
      → set_script_pubkey w script k child st ≡ (ok tt, derived w script k child st)
  unfolding set_script_pubkey derived insert_script_pubkey update_script_pubkey
  set_script_pubkey_run script k child st small =
      let key = path_key w k child in
      let query = by_path_lem k child st in
      elim (Option-cases (find key st.script_pubkeys)) [
        | inl missing ↦
            let free : any key st.script_pubkeys ≡ false =
              any-find key st.script_pubkeys ∙ (rw missing) in
            let law : w.script_pubkey.insert (new_row w script k child) st.script_pubkeys
                ≡ ok (st.script_pubkeys ++ new_row w script k child ∷ []) =
              up.script_pubkey_law.insert_lem (new_row w script k child) st.script_pubkeys
              ∙ (rw (free, if◌then◌else◌)) in
            let written = ap (λ r. write r (λ rows. record st { script_pubkeys = rows }) st) law in
            ground (arith, query, written)
        | inr (row, found) ↦
            let law =
              update_key same_script_pubkey true w.script_pubkey key row
                (record row { script = hexed w.script_codec script }) st.script_pubkeys
                up.script_pubkey_law found
                (same_by_path k child row (find_sound key st.script_pubkeys row found)) in
            let written = ap (λ r. write r (λ rows. record st { script_pubkeys = rows }) st) law in
            ground (arith, query, written)
      ]

  script_at-derived :
      (script : Text) (k : KeychainKind) (child : ℕ) (st : Stored)
      → (row : ScriptPubkeyRow) × ((find
              (path_key w k child)
              (derived w script k child st).script_pubkeys
            ≡ some row)
          × (row.script ≡ hexed w.script_codec script))
  unfolding derived
  script_at-derived script k child st =
      let key = path_key w k child in
      elim (Option-cases (find key st.script_pubkeys)) [
        | inl missing ↦ (
          new_row w script k child,
          (
            ground (
              arith,
              find-append key st.script_pubkeys (new_row w script k child),
              =text_iff w.node_id w.node_id,
              =text_iff (keychain_column w k) (keychain_column w k),
            ),
            refl,
          ),
        )
        | inr (row, found) ↦
            let hit : key row ≡ true = find_sound key st.script_pubkeys row found in
            let row' = record row { script = hexed w.script_codec script } in
            (row', (ground (arith, find-put key row' st.script_pubkeys hit), refl))
      ]

  get-derived :
      (script : Text) (k : KeychainKind) (child : ℕ) (st : Stored)
      → child < 2 ^ 31
      → get_script_pubkey_from_path w k child (derived w script k child st)
        ≡ (ok (some script), derived w script k child st)
  unfolding get_script_pubkey_from_path
  get-derived script k child st small =
      let st' = derived w script k child st in
      let (row, (found, e)) = script_at-derived script k child st in
      let decoded : unhexed w.script_codec encode row.script ≡ ok script =
        ap (unhexed w.script_codec encode) e
        ∙ unhexed-hexed w.script_codec up.script_law encode script in
      ground (arith, by_path_lem k child st', found, decoded)

  -- For a child index that fits its column: `set_script_pubkey` succeeds, and
  -- `get_script_pubkey_from_path` then finds the script at its path, whether or not one stood there.
  get_script_pubkey_from_path-set_script_pubkey :
      (script : Text) (k : KeychainKind) (child : ℕ) (st : Stored)
      → child < 2 ^ 31
      → let (r, st') = set_script_pubkey w script k child st in
        (r ≡ ok tt) × (get_script_pubkey_from_path w k child st' ≡ (ok (some script), st'))
  get_script_pubkey_from_path-set_script_pubkey script k child st small =
      rw (set_script_pubkey_run script k child st small) (refl, get-derived script k child st small)
