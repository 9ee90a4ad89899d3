-- ===== src/Wallet/Mempool.antt =====
-- `process_mempool_tx` of senseicore/src/chain/database.rs: one transaction, then both indexes.
use sensei.Prelude.{
  ℕ, ◌+◌, ◌<◌, ◌^◌, ◌≡◌, refl, sym, ap, ◌∙◌, Option, none, some, List, [], ◌∷◌, Text, All, find, ok,
  arith, Option-cases, Bool-cases, inl, inr,
}
use sensei.Wallet.Types.{
  WalletDatabase, Stored, IsUp, OutPoint, TxOut, Transaction, KeychainKind, external, internal,
  UtxoRow, TransactionRow, KeychainRow,
}
use sensei.Wallet.Queries.{by_keychain}
use sensei.Wallet.Operations.{keychain_column}
use sensei.Wallet.Process.{MaxDeriv, no_deriv, process_mempool_tx, bump_index}
use sensei.Wallet.Views.{path_of}
use sensei.Wallet.Spends.{spend}
use sensei.Wallet.Creates.{create, derivs}
use sensei.Wallet.Refines.{IsProcessable, concerns_us, moved, after, process_tx-after}
use sensei.Wallet.Indexes.{keychain_row, IsRegistered, raised_to, bump_index-raises}
use sensei.Wallet.Indexes.Children.{
  children, past, HasRoom, max_of, MaxHasRoom, derivs-past, derivs-HasRoom,
}

module _ (w : WalletDatabase) where
  -- A part of the state that has neither the utxos nor the transactions.
  module _ {A : Type 0} (f : Stored → A) where
    abbrev pub IsApart : Type 0
    IsApart =
        ((st : Stored) (rows : List UtxoRow) → f (record st { utxos = rows }) ≡ f st)
        × ((st : Stored) (rows : List TransactionRow)
            → f (record st { transactions = rows }) ≡ f st)

    kept-spend :
        IsApart
        → (own : OutPoint → Option TxOut) (ins : List OutPoint) (st : Stored)
        → f (spend w own ins st) ≡ f st
    unfolding spend
    kept-spend law own [] st = refl
    kept-spend law own (o ∷ rest) st = elim (Option-cases (own o)) [
      | inl foreign ↦ rw (foreign, spend) (kept-spend law own rest st)
      | inr (t, mine) ↦ rw (mine, spend) (kept-spend law own rest _ ∙ law.0 st _)
    ]

    kept-create :
        IsApart
        → (path : Text → Option (KeychainKind × ℕ)) (txid : Text) (i : ℕ) (outs : List TxOut)
          (st : Stored)
        → f (create w path txid i outs st) ≡ f st
    unfolding create
    kept-create law path txid i [] st = refl
    kept-create law path txid i (t ∷ rest) st = elim (Option-cases (path t.script_pubkey)) [
      | inl foreign ↦ rw (foreign, create) (kept-create law path txid (i + 1) rest st)
      | inr ((k, child), mine) ↦
          rw (mine, create) (kept-create law path txid (i + 1) rest _ ∙ law.0 st _)
    ]

    pub kept-after :
        IsApart
        → (tx : Transaction) (height time : Option ℕ) (st : Stored)
        → f (after w st tx height time) ≡ f st
    unfolding after
    kept-after law tx height time st =
        let same = kept-create law _ tx.txid 0 tx.output _ ∙ kept-spend law _ tx.input st in
        elim (Bool-cases (concerns_us w st tx)) [
          | inl ours ↦ rw (ours, after) (law.1 (moved w st tx) _ ∙ same)
          | inr foreign ↦ rw (foreign, after) same
        ]

  -- What a raise past the paid children of each keychain leaves of the rows of the keychains.
  abbrev pub AreRaised : (KeychainKind → List ℕ) → Stored → Stored → Type 0
  AreRaised paid st st' =
      (k : KeychainKind) (row : KeychainRow)
      → keychain_row w st k ≡ some row
      → keychain_row w st' k
        ≡ some (record row { last_derivation_index = past row.last_derivation_index (paid k) })

no_deriv_of : (k : KeychainKind) → max_of no_deriv k ≡ none
no_deriv_of external = refl
no_deriv_of internal = refl

-- The raise from no child at all.
pub raised-past :
    (k : KeychainKind) (m : MaxDeriv) (paid : List ℕ)
    → ((index : ℕ) → raised_to index (max_of m k) ≡ past (raised_to index (max_of no_deriv k)) paid)
    → (index : ℕ) → raised_to index (max_of m k) ≡ past index paid
raised-past k m paid law index = law index ∙ ap (λ o. past (raised_to index o) paid) (no_deriv_of k)

pub no_deriv-MaxHasRoom : (k : KeychainKind) → MaxHasRoom (max_of no_deriv k)
no_deriv-MaxHasRoom external = tt
no_deriv-MaxHasRoom internal = tt

pub fits :
    (paid : Option ℕ) → MaxHasRoom paid → (child : ℕ) → paid ≡ some child → child + 1 < 2 ^ 31
fits none room child e = absurd (ground (arith, e))
fits (some top) room child e = ground (arith, e, room)

module _ (w : WalletDatabase) (up : IsUp w) where
  -- Both raises, one after the other.
  pub raised_both :
      (m : MaxDeriv) (paid : KeychainKind → List ℕ) (st₁ st : Stored)
      → st₁.keychains ≡ st.keychains
      → ((k : KeychainKind) → IsRegistered w st k)
      → ((k : KeychainKind) → MaxHasRoom (max_of m k))
      → ((k : KeychainKind) (index : ℕ) → raised_to index (max_of m k) ≡ past index (paid k))
      → let b₁ = bump_index w external m.external_max st₁ in
        let b₂ = bump_index w internal m.internal_max b₁.1 in
        (b₁.0 ≡ ok tt) × (b₂.0 ≡ ok tt) × AreRaised w paid st b₂.1
  raised_both m paid st₁ st same registered room law =
      let st₂ = (bump_index w external m.external_max st₁).1 in
      let st₃ = (bump_index w internal m.internal_max st₂).1 in
      let (outer, outer_found, outer_readable) = registered external in
      let (inner, inner_found, inner_readable) = registered internal in
      let keep : (k : KeychainKind) → keychain_row w st₁ k ≡ keychain_row w st k =
        λ k. ap (find (by_keychain w (keychain_column w k))) same in
      let first =
        bump_index-raises w up external m.external_max st₁ outer (keep external ∙ outer_found)
          outer_readable (fits m.external_max (room external)) in
      let second =
        bump_index-raises w up internal m.internal_max st₂ inner
          (first.2 internal refl ∙ keep internal ∙ inner_found) inner_readable
          (fits m.internal_max (room internal)) in
      (
        first.0,
        second.0,
        rows st₃ outer inner outer_found inner_found (second.2 external refl ∙ first.1) second.1,
      )
    where
      one :
          (k : KeychainKind) (st' : Stored) (old row : KeychainRow)
          → keychain_row w st k ≡ some old
          → keychain_row w st k ≡ some row
          → keychain_row w st' k
            ≡ some (record old {
              last_derivation_index = raised_to old.last_derivation_index (max_of m k);
            })
          → keychain_row w st' k
            ≡ some (record row { last_derivation_index = past row.last_derivation_index (paid k) })
      one k st' old row found found' e =
          let equal : old ≡ row = ground (arith, sym found ∙ found') in
          e
          ∙ ap
              (λ (r : KeychainRow). some (record r {
                last_derivation_index = raised_to r.last_derivation_index (max_of m k);
              }))
              equal
          ∙ ap (λ i. some (record row { last_derivation_index = i }))
              (law k row.last_derivation_index)

      rows :
          (st' : Stored) (outer inner : KeychainRow)
          → keychain_row w st external ≡ some outer
          → keychain_row w st internal ≡ some inner
          → keychain_row w st' external
            ≡ some (record outer {
              last_derivation_index = raised_to outer.last_derivation_index m.external_max;
            })
          → keychain_row w st' internal
            ≡ some (record inner {
              last_derivation_index = raised_to inner.last_derivation_index m.internal_max;
            })
          → AreRaised w paid st st'
      rows st' outer inner of ow e i external row found = one external st' outer row of found e
      rows st' outer inner of ow e i internal row found = one internal st' inner row ow found i

  -- For a transaction that the wallet can take in, and registered keychains, where the one past each
  -- child that an output pays fits its column: `process_mempool_tx` succeeds, and the row of each
  -- keychain is as it was, but for the index, which is raised past each of its children that an output
  -- pays.
  pub process_mempool_tx-indexes :
      (tx : Transaction) (st : Stored)
      → IsProcessable w st tx
      → ((k : KeychainKind) → IsRegistered w st k)
      → ((k : KeychainKind) → All HasRoom (children (path_of w st) k tx.output))
      → let (r, st') = process_mempool_tx w tx st in
        (r ≡ ok tt) × AreRaised w (λ k. children (path_of w st) k tx.output) st st'
  unfolding process_mempool_tx
  process_mempool_tx-indexes tx st can registered room =
      let m = derivs (path_of w st) no_deriv tx.output in
      let paid = λ (k : KeychainKind). children (path_of w st) k tx.output in
      let run = process_tx-after w up tx none none no_deriv st can in
      let st₁ = after w st tx none none in
      let st₂ = (bump_index w external m.external_max st₁).1 in
      let (first, second, rows) =
        raised_both m paid st₁ st
          (kept-after w (λ s. s.keychains) ((λ _ _. refl), (λ _ _. refl)) tx none none st)
          registered
          (λ k. derivs-HasRoom (path_of w st) k no_deriv tx.output (room k) (no_deriv-MaxHasRoom k))
          (λ k.
            raised-past k m (paid k)
              (λ index. derivs-past (path_of w st) k index no_deriv tx.output)) in
      let done : process_mempool_tx w tx st
          ≡ (ok tt, (bump_index w internal m.internal_max st₂).1) =
        ground (arith, run, first, second) in
      rw done (refl, rows)
