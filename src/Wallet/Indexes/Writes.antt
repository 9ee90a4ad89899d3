-- ===== src/Wallet/Indexes/Writes.antt =====
-- What the raise of an index writes to: the row of its own keychain.
use sensei.Prelude.{
  ℕ, ◌<◌, ◌^◌, ◌≡◌, refl, subst, ap, ◌∙◌, Bool, not, Option, some, List, [], ◌∷◌, ◌++◌, ◌=text◌,
  =text_refl, ltb, select, arith, Option-cases, Bool-cases, inl, inr,
}
use sensei.Sql.Laws.{put, find_sound, select-append_apart, select-put_apart}
use sensei.Wallet.Types.{WalletDatabase, Stored, IsUp, KeychainKind, KeychainRow, has_checksum}
use sensei.Wallet.Queries.{by_keychain}
use sensei.Wallet.Operations.{keychain_column}
use sensei.Wallet.Process.{first_unused, bump_index}
use sensei.Wallet.Indexes.{keychain_row, bumped, bump_run, new_row}

module _ (w : WalletDatabase) (up : IsUp w) where
  -- The raise ends, in success or in a panic, with the keychains as they were, with a new row of this
  -- keychain, or with its row changed.
  bumped-cases :
      (P : Stored → Type 0) (k : KeychainKind) (paid : Option ℕ) (st : Stored)
      → P st
      → P (record st { keychains = st.keychains ++ new_row w up k (first_unused paid) ∷ [] })
      → ((row : KeychainRow)
          → keychain_row w st k ≡ some row
          → P (record st {
            keychains =
                put
                  (by_keychain w (keychain_column w k))
                  (record row { last_derivation_index = first_unused paid })
                  st.keychains;
          }))
      → P (bumped w up k paid st).1
  bumped-cases P k paid st same new changed =
      let value = first_unused paid in
      let key = by_keychain w (keychain_column w k) in
      elim (Option-cases (keychain_row w st k)) [
        | inl missing ↦ elim (Bool-cases (ltb 0 value)) [
          | inl more ↦
              let e : record st { keychains = st.keychains ++ new_row w up k value ∷ [] }
                  ≡ (bumped w up k paid st).1 =
                ground (arith, missing, more) in
              subst P e new
          | inr fine ↦
              let e : st ≡ (bumped w up k paid st).1 = ground (arith, missing, fine) in
              subst P e same
        ]
        | inr (row, found) ↦ elim (Bool-cases (has_checksum row)) [
          | inl readable ↦ elim (Bool-cases (ltb row.last_derivation_index value)) [
            | inl more ↦
                let e : record st {
                  keychains = put key (record row { last_derivation_index = value }) st.keychains;
                }
                    ≡ (bumped w up k paid st).1 =
                  ground (arith, found, readable, more) in
                subst P e (changed row found)
            | inr fine ↦
                let e : st ≡ (bumped w up k paid st).1 = ground (arith, found, readable, fine) in
                subst P e same
          ]
          | inr unreadable ↦
              let e : st ≡ (bumped w up k paid st).1 = ground (arith, found, unreadable) in
              subst P e same
        ]
      ]

  -- The raise writes to the table of the keychains only.
  pub bump_index-rest :
      {A : Type 0} (f : Stored → A)
      → ((st : Stored) (rows : List KeychainRow) → f (record st { keychains = rows }) ≡ f st)
      → (k : KeychainKind) (paid : Option ℕ) (st : Stored) → first_unused paid < 2 ^ 31
      → f (bump_index w k paid st).1 ≡ f st
  bump_index-rest f law k paid st small =
      ap (λ r. f r.1) (bump_run w up k paid st small)
      ∙ bumped-cases (λ s. f s ≡ f st) k paid st refl (law st _) (λ row found. law st _)

  abbrev foreign : KeychainRow → Bool
  foreign r = not (r.node_id =text w.node_id)

  pub bump_index-foreign :
      (k : KeychainKind) (paid : Option ℕ) (st : Stored)
      → first_unused paid < 2 ^ 31
      → select foreign (bump_index w k paid st).1.keychains ≡ select foreign st.keychains
  bump_index-foreign k paid st small =
      let key = by_keychain w (keychain_column w k) in
      ap (λ r. select foreign r.1.keychains) (bump_run w up k paid st small)
      ∙ bumped-cases (λ s. select foreign s.keychains ≡ select foreign st.keychains) k paid st refl
          (select-append_apart foreign (new_row w up k (first_unused paid)) st.keychains
            (ground (arith, =text_refl w.node_id)))
          (λ row found.
            let hit = find_sound key st.keychains row found in
            select-put_apart foreign key (record row { last_derivation_index = first_unused paid })
              st.keychains (ground (arith, hit)) (λ x own. ground (arith, own)))
