-- ===== src/Wallet/Connected.antt =====
-- `filtered_block_connected` of senseicore/src/chain/database.rs: a block is its transactions, one after
-- the other.
use sensei.Sql.Laws.{select-append_apart}
use sensei.Prelude.{
  select, not, ◌=text◌, =text_refl, ◌++◌, ℕ, ◌≡◌, refl, sym, subst, ap, ◌∙◌, ◌⊎◌, none, some, List,
  [], ◌∷◌, All, ok, arith, inl, inr, find,
}
use sensei.Wallet.Types.{
  WalletDatabase, Stored, IsUp, Transaction, KeychainKind, external, internal, LastSync, KvRow,
  UtxoRow, TransactionRow, KeychainRow,
}
use sensei.Wallet.Queries.{by_key}
use sensei.Wallet.Process.{MaxDeriv, no_deriv, bump_index}
use sensei.Wallet.Blocks.{
  BlockHeader, process_block, filtered_block_connected, last_onchain_wallet_sync,
  create_or_update_last_onchain_wallet_sync,
}
use sensei.Wallet.Views.{path_of}
use sensei.Wallet.Creates.{derivs}
use sensei.Wallet.Refines.{IsProcessable, after, process_tx-after}
use sensei.Wallet.Indexes.{IsRegistered, raised_to, first_unused-fits}
use sensei.Wallet.Indexes.Children.{
  children, past, HasRoom, max_of, MaxHasRoom, derivs-past, derivs-HasRoom, past-append, All-front,
  All-back,
}
use sensei.Wallet.Indexes.Writes.{bump_index-rest}
use sensei.Wallet.Mempool.{
  AreRaised, raised_both, kept-after, raised-past, no_deriv-MaxHasRoom, fits,
}
use sensei.Wallet.Sync.{kept, stored, entry_of}

module _ (w : WalletDatabase) where
  -- The tables after the transactions of a block, taken in one by one.
  abbrev pub after_all : List Transaction → ℕ → ℕ → Stored → Stored
  after_all [] height time st = st
  after_all (tx ∷ txdata) height time st =
      after_all txdata height time (after w st tx (some height) (some time))

  -- The highest children that they pay.
  abbrev pub derivs_all : List Transaction → ℕ → ℕ → MaxDeriv → Stored → MaxDeriv
  derivs_all [] height time m st = m
  derivs_all (tx ∷ txdata) height time m st =
      derivs_all txdata height time (derivs (path_of w st) m tx.output)
        (after w st tx (some height) (some time))

  -- The children of a keychain that they pay, each by the scripts of its turn.
  abbrev pub children_all : List Transaction → ℕ → ℕ → Stored → KeychainKind → List ℕ
  children_all [] height time st k = []
  children_all (tx ∷ txdata) height time st k =
      children (path_of w st) k tx.output
      ++ children_all txdata height time (after w st tx (some height) (some time)) k

  derivs_all-past :
      (txdata : List Transaction) (height time : ℕ) (m : MaxDeriv) (st : Stored) (k : KeychainKind)
      (index : ℕ)
      → raised_to index (max_of (derivs_all txdata height time m st) k)
        ≡ past (raised_to index (max_of m k)) (children_all txdata height time st k)
  derivs_all-past [] height time m st k index = refl
  derivs_all-past (tx ∷ txdata) height time m st k index =
      let st' = after w st tx (some height) (some time) in
      let first = children (path_of w st) k tx.output in
      let rest = children_all txdata height time st' k in
      derivs_all-past txdata height time (derivs (path_of w st) m tx.output) st' k index
      ∙ ap (λ i. past i rest) (derivs-past (path_of w st) k index m tx.output)
      ∙ sym (past-append (raised_to index (max_of m k)) first rest)

  derivs_all-HasRoom :
      (txdata : List Transaction) (height time : ℕ) (m : MaxDeriv) (st : Stored) (k : KeychainKind)
      → All HasRoom (children_all txdata height time st k)
      → MaxHasRoom (max_of m k)
      → MaxHasRoom (max_of (derivs_all txdata height time m st) k)
  derivs_all-HasRoom [] height time m st k room old = old
  derivs_all-HasRoom (tx ∷ txdata) height time m st k room old =
      let st' = after w st tx (some height) (some time) in
      let first = children (path_of w st) k tx.output in
      let rest = children_all txdata height time st' k in
      derivs_all-HasRoom txdata height time (derivs (path_of w st) m tx.output) st' k
        (All-back HasRoom first rest room)
        (derivs-HasRoom (path_of w st) k m tx.output (All-front HasRoom first rest room) old)

  -- The wallet can take in each of them when its turn comes.
  abbrev pub AreProcessable : List Transaction → ℕ → ℕ → Stored → Type 0
  AreProcessable [] height time st = Unit
  AreProcessable (tx ∷ txdata) height time st =
      IsProcessable w st tx
      × AreProcessable txdata height time (after w st tx (some height) (some time))

  -- No block was recorded yet, or one that can be read.
  abbrev pub HasSync : List KvRow → Type 0
  HasSync rows =
      (find (by_key w (last_onchain_wallet_sync w)) rows ≡ none)
      ⊎ ((entry : KvRow) × (find (by_key w (last_onchain_wallet_sync w)) rows ≡ some entry)
          × ((s : LastSync) × (w.last_sync_codec.decode entry.v ≡ some s)))

  pub kept-after_all :
      {A : Type 0} (f : Stored → A)
      → ((st : Stored) (rows : List UtxoRow) → f (record st { utxos = rows }) ≡ f st)
      → ((st : Stored) (rows : List TransactionRow) → f (record st { transactions = rows }) ≡ f st)
      → (txdata : List Transaction) (height time : ℕ) (st : Stored)
      → f (after_all txdata height time st) ≡ f st
  kept-after_all f p q [] height time st = refl
  kept-after_all f p q (tx ∷ txdata) height time st =
      kept-after_all f p q txdata height time (after w st tx (some height) (some time))
      ∙ kept-after w f (p, q) tx (some height) (some time) st

module _ (w : WalletDatabase) (up : IsUp w) where
  pub process_block-after_all :
      (txdata : List Transaction) (height time : ℕ) (m : MaxDeriv) (st : Stored)
      → AreProcessable w txdata height time st
      → process_block w txdata height time m st
        ≡ (ok (derivs_all w txdata height time m st), after_all w txdata height time st)
  unfolding process_block
  process_block-after_all [] height time m st can = refl
  process_block-after_all (tx ∷ txdata) height time m st can =
      let one = process_tx-after w up tx (some height) (some time) m st can.0 in
      let rest =
        process_block-after_all txdata height time (derivs (path_of w st) m tx.output)
          (after w st tx (some height) (some time)) can.1 in
      ground (arith, one, rest)

  -- The record of the block goes to the key-value table, and succeeds. The rows of other nodes stay.
  pub recorded_sync :
      (s : LastSync) (st : Stored)
      → HasSync w st.kv_store
      → (rows : List KvRow) × (select (λ r. not (r.node_id =text w.node_id)) rows
          ≡ select (λ r. not (r.node_id =text w.node_id)) st.kv_store)
        × ((r : LastSync) × (create_or_update_last_onchain_wallet_sync w s st
              ≡ (ok r, record st { kv_store = rows })))
  recorded_sync s st (inl missing) = (
    st.kv_store ++ entry_of w up s ∷ [],
    select-append_apart (λ r. not (r.node_id =text w.node_id)) (entry_of w up s) st.kv_store
        (ground (arith, =text_refl w.node_id)),
    (s, stored w up s st missing),
  )
  recorded_sync s st (inr (entry, found, (old, decoded))) =
      (st.kv_store, refl, (old, kept w up entry old s st found decoded))

  -- For a block whose transactions the wallet can take in one after the other, and registered
  -- keychains, where the one past each child that is paid fits its column and the recorded block can be
  -- read if there is one: `filtered_block_connected` succeeds, the utxos and the transactions are those
  -- after the transactions one by one, and the row of each keychain is as it was, but for the index,
  -- which is raised past each of its children that an output of the block pays.
  pub filtered_block_connected-after_all :
      (header : BlockHeader) (txdata : List Transaction) (height now : ℕ) (st : Stored)
      → AreProcessable w txdata height header.time st
      → HasSync w st.kv_store
      → ((k : KeychainKind) → IsRegistered w st k)
      → ((k : KeychainKind) → All HasRoom (children_all w txdata height header.time st k))
      → let (r, st') = filtered_block_connected w header txdata height now st in
        (r ≡ ok tt)
        × (st'.utxos ≡ (after_all w txdata height header.time st).utxos)
        × (st'.transactions ≡ (after_all w txdata height header.time st).transactions)
        × AreRaised w (children_all w txdata height header.time st) st st'
  unfolding filtered_block_connected
  filtered_block_connected-after_all header txdata height now st can sync registered room =
      let m = derivs_all w txdata height header.time no_deriv st in
      let st₁ = after_all w txdata height header.time st in
      let block = process_block-after_all txdata height header.time no_deriv st can in
      let st₂ = (bump_index w external m.external_max st₁).1 in
      let st₃ = (bump_index w internal m.internal_max st₂).1 in
      let has_room : (k : KeychainKind) → MaxHasRoom (max_of m k) = λ k.
        derivs_all-HasRoom w txdata height header.time no_deriv st k (room k)
          (no_deriv-MaxHasRoom k) in
      let (first, second, rows) =
        raised_both w up m (children_all w txdata height header.time st) st₁ st
          (kept-after_all w (λ s. s.keychains) (λ _ _. refl) (λ _ _. refl) txdata height header.time
            st)
          registered has_room
          (λ k.
            raised-past k m (children_all w txdata height header.time st k)
              (derivs_all-past w txdata height header.time no_deriv st k)) in
      let rest : (A : Type 0) (f : Stored → A)
          → ((s : Stored) (ks : List KeychainRow) → f (record s { keychains = ks }) ≡ f s)
          → f st₃ ≡ f st₁ =
        λ A f law.
          bump_index-rest w up f law internal m.internal_max st₂
            (first_unused-fits m.internal_max (fits m.internal_max (has_room internal)))
          ∙ bump_index-rest w up f law external m.external_max st₁
              (first_unused-fits m.external_max (fits m.external_max (has_room external))) in
      let same_rows : st₃.kv_store ≡ st.kv_store =
        rest (List KvRow) (λ s. s.kv_store) (λ _ _. refl)
        ∙ kept-after_all w (λ s. s.kv_store) (λ _ _. refl) (λ _ _. refl) txdata height header.time
            st in
      let last : LastSync = record { height = height; hash = header.block_hash; timestamp = now } in
      let (kv, _, (r, done)) = recorded_sync last st₃ (subst (HasSync w) (sym same_rows) sync) in
      let run : filtered_block_connected w header txdata height now st
          ≡ (ok tt, record st₃ { kv_store = kv }) =
        ground (arith, block, first, second, done) in
      rw run (
        refl,
        rest (List UtxoRow) (λ s. s.utxos) (λ _ _. refl),
        rest (List TransactionRow) (λ s. s.transactions) (λ _ _. refl),
        rows,
      )
