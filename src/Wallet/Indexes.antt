-- ===== src/Wallet/Indexes.antt =====
-- The derivation index of each keychain: `set_last_index`, `get_last_index`, `increment_last_index`
-- and the raise at the end of `process_mempool_tx` (senseicore/src/chain/database.rs).
pub mod Writes
pub mod Children
use mathlib.Core.Option
use sensei.Prelude.{
  Bool, ◌∙◌, ℕ, ◌+◌, ◌<◌, ◌^◌, ◌≡◌, refl, sym, ap, true, false, ◌&&◌, Option, none, some, [], ◌∷◌,
  ◌++◌, max, ltb, ◌=text◌, =text_iff, ok, find, unwrap_or, arith, Option-cases, Bool-cases, inl,
  Outcome, panic, inr, if◌then◌else◌,
}
use sensei.Sql.Laws.{find-append, find_sound, update_key, find-put, find-put_apart, put}
use sensei.Wallet.Types.{
  WalletDatabase, Stored, IsUp, KeychainRow, KeychainKind, external, internal, ◌=kind◌,
  same_keychain, has_checksum,
}
use sensei.Wallet.Store.{Error, read, write, insert_keychain, update_keychain}
use sensei.Wallet.Queries.{by_keychain, get_keychain}
use sensei.Wallet.Operations.{keychain_column, set_last_index}
use sensei.Wallet.Reads.{get_last_index}
use sensei.Wallet.Process.{first_unused, bump_index}

-- An index after the raise past a child, if one was paid.
abbrev pub raised_to : ℕ → Option ℕ → ℕ
raised_to index none = index
raised_to index (some child) = max index (child + 1)

raised_to-first_unused :
    (index : ℕ) (paid : Option ℕ)
    → raised_to index paid ≡ (if ltb index (first_unused paid) then first_unused paid else index)
raised_to-first_unused index none = ground arith
raised_to-first_unused index (some child) = ground arith

pub first_unused-fits :
    (paid : Option ℕ)
    → ((child : ℕ) → paid ≡ some child → child + 1 < 2 ^ 31)
    → first_unused paid < 2 ^ 31
first_unused-fits none small = omega arith
first_unused-fits (some child) small = small child refl

module _ (w : WalletDatabase) where
  abbrev pub keychain_row : Stored → KeychainKind → Option KeychainRow
  keychain_row st k = find (by_keychain w (keychain_column w k)) st.keychains

  -- The keychain's row is there and can be decoded, as after `check_descriptor_checksum`.
  abbrev pub IsRegistered : Stored → KeychainKind → Type 0
  IsRegistered st k =
      (row : KeychainRow) × (keychain_row st k ≡ some row) × (has_checksum row ≡ true)

module _ (w : WalletDatabase) (up : IsUp w) where
  kinds_apart : keychain_column w external ≡ keychain_column w internal → ⊥
  kinds_apart e = ground (
    arith,
    ap w.keychain_codec.decode e,
    up.keychain_codec_law.decode-encode external,
    up.keychain_codec_law.decode-encode internal,
  )

  column_eq : (a b : KeychainKind) → (keychain_column w a =text keychain_column w b) ≡ (a =kind b)
  column_eq external external = (=text_iff _ _).1 refl
  column_eq internal internal = (=text_iff _ _).1 refl
  column_eq external internal =
      ground
        (arith, =text_iff (keychain_column w external) (keychain_column w internal), kinds_apart)
  column_eq internal external = ground (
    arith,
    =text_iff (keychain_column w internal) (keychain_column w external),
    λ (e : keychain_column w internal ≡ keychain_column w external). kinds_apart (sym e),
  )

  same_by_keychain :
      (k : KeychainKind) (row : KeychainRow)
      → by_keychain w (keychain_column w k) row ≡ true
      → same_keychain row ≡ by_keychain w (keychain_column w k)
  same_by_keychain k row hit =
      let node : row.node_id ≡ w.node_id = (=text_iff row.node_id w.node_id).0 (ground arith) in
      let key : row.keychain ≡ keychain_column w k = (=text_iff row.keychain _).0 (ground arith) in
      λ i x. (x.node_id =text node i) && (x.keychain =text key i)

  abbrev pub new_row : KeychainKind → ℕ → KeychainRow
  new_row k value = record {
    node_id = w.node_id;
    keychain = keychain_column w k;
    last_derivation_index = value;
    checksum = none;
  }

  kind_sound : (a b : KeychainKind) → (a =kind b) ≡ true → a ≡ b
  kind_sound external external e = refl
  kind_sound internal internal e = refl
  kind_sound external internal e = absurd (ground arith)
  kind_sound internal external e = absurd (ground arith)

  -- A row of one keychain is no row of the other.
  apart :
      (k other : KeychainKind)
      → (k =kind other) ≡ false
      → (x : KeychainRow) → by_keychain w (keychain_column w k) x ≡ true
      → by_keychain w (keychain_column w other) x ≡ false
  apart k other differ x hit = ground (
    arith,
    =text_iff x.keychain (keychain_column w k),
    =text_iff x.keychain (keychain_column w other),
    =text_iff (keychain_column w k) (keychain_column w other),
    column_eq k other,
  )

  -- What the raise of an index ends in, and the tables that it leaves: a row that is missing is written
  -- and cannot be read back, and one that cannot be read is left alone.
  abbrev pub bumped : KeychainKind → Option ℕ → Stored → Outcome Error (Unit {0}) × Stored
  bumped k paid st = elim (keychain_row w st k) [
    | none ↦
        if ltb 0 (first_unused paid)
        then (panic, record st { keychains = st.keychains ++ new_row k (first_unused paid) ∷ [] })
        else (ok tt, st)
    | some row ↦
        if has_checksum row
        then (if ltb row.last_derivation_index (first_unused paid)
            then (
              ok tt,
              record st {
                keychains =
                    put (by_keychain w (keychain_column w k))
                      (record row { last_derivation_index = first_unused paid }) st.keychains;
              },
            )
            else (ok tt, st))
        else (panic, st)
  ]

  pub bump_run :
      (k : KeychainKind) (paid : Option ℕ) (st : Stored)
      → first_unused paid < 2 ^ 31
      → bump_index w k paid st ≡ bumped k paid st
  unfolding bump_index get_last_index set_last_index get_keychain insert_keychain update_keychain
  bump_run k paid st small =
      let key = by_keychain w (keychain_column w k) in
      let query = up.keychain_law.one_lem key st.keychains in
      elim (Option-cases (keychain_row w st k)) [
        | inl missing ↦
            let law = up.keychain_law.insert_lem (new_row k (first_unused paid)) st.keychains in
            ground (arith, query, missing, law)
        | inr (row, found) ↦
            let law =
              update_key same_keychain false w.keychain key row
                (record row { last_derivation_index = first_unused paid }) st.keychains
                up.keychain_law found
                (same_by_keychain k row (find_sound _ st.keychains row found)) in
            ground (arith, query, found, law)
      ]

  -- For a registered keychain, and a paid child whose next one fits its column: the raise after a
  -- transaction succeeds, the index is the larger of what it was and one past the child, as it was where
  -- none was paid, and nothing else of the row and of the row of the other keychain is changed.
  pub bump_index-raises :
      (k : KeychainKind) (paid : Option ℕ) (st : Stored) (row : KeychainRow)
      → keychain_row w st k ≡ some row
      → has_checksum row ≡ true
      → ((child : ℕ) → paid ≡ some child → child + 1 < 2 ^ 31)
      → let (r, st') = bump_index w k paid st in
        (r ≡ ok tt)
        × (keychain_row w st' k
            ≡ some
                (record row { last_derivation_index = raised_to row.last_derivation_index paid }))
        × ((other : KeychainKind)
            → (k =kind other) ≡ false
            → keychain_row w st' other ≡ keychain_row w st other)
  bump_index-raises k paid st row found readable small =
      let key = by_keychain w (keychain_column w k) in
      let run = bump_run k paid st (first_unused-fits paid small) in
      let index = raised_to-first_unused row.last_derivation_index paid in
      let hit : key row ≡ true = find_sound key st.keychains row found in
      let row' = record row { last_derivation_index = first_unused paid } in
      elim (Bool-cases (ltb row.last_derivation_index (first_unused paid))) [
        | inl more ↦
            let st' : Stored = record st { keychains = put key row' st.keychains } in
            let done : bump_index w k paid st ≡ (ok tt, st') =
              ground (arith, run, found, readable, more) in
            let same : raised_to row.last_derivation_index paid ≡ first_unused paid =
              ground (arith, index, more) in
            rw (done, same)
              (
                refl,
                ground (arith, find-put key row' st.keychains hit, found),
                λ other differ.
                    find-put_apart (by_keychain w (keychain_column w other)) key row' st.keychains
                      (apart k other differ row' hit) (apart k other differ),
              )
        | inr fine ↦
            let done : bump_index w k paid st ≡ (ok tt, st) =
              ground (arith, run, found, readable, fine) in
            let same : raised_to row.last_derivation_index paid ≡ row.last_derivation_index =
              ground (arith, index, fine) in
            rw (done, same) (refl, found, λ other differ. refl)
      ]
