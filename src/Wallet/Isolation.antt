-- ===== src/Wallet/Isolation.antt =====
-- The nodes share their tables: what a block leaves of the rows of the other nodes
-- (senseicore/src/chain/database.rs).
use sensei.Prelude.{
  ℕ, ◌<◌, ◌^◌, ◌≡◌, refl, sym, subst, ap, ◌∙◌, not, Option, some, List, [], ◌∷◌, Text, ◌=text◌,
  =text_iff, =text_refl, find, select, arith, Option-cases, Bool-cases, inl, inr,
}
use sensei.Codec.{hexed}
use sensei.State.{◌>>=◌, ◌>>◌, pure, unwrapped, after-bind}
use sensei.Wallet.Store.{Action}
use sensei.Sql.Laws.{find_sound, select-append_apart, select-put_apart}
use sensei.Wallet.Types.{
  WalletDatabase, Stored, IsUp, Transaction, TransactionDetails, TransactionRow, KeychainRow,
  KeychainKind, KvRow, LastSync, same_transaction, external, internal,
}
use sensei.Wallet.Queries.{by_txid}
use sensei.Wallet.Process.{no_deriv, first_unused, bump_index}
use sensei.Wallet.Blocks.{
  BlockHeader, filtered_block_connected, create_or_update_last_onchain_wallet_sync,
}
use sensei.Wallet.Records.{recorded, with_details, new_transaction}
use sensei.Wallet.Refines.{details, moved, concerns_us, after, transactions-moved}
use sensei.Wallet.Indexes.Writes.{bump_index-rest, bump_index-foreign}
use sensei.Wallet.Connected.{
  after_all, derivs_all, AreProcessable, HasSync, process_block-after_all, recorded_sync,
  kept-after_all,
}

module _ (w : WalletDatabase) where
  -- The rows of the other nodes.
  abbrev pub others : {Row : Type 0} → (Row → Text) → List Row → List Row
  others node_of = select λ r. not (node_of r =text w.node_id)

  recorded-others :
      (d : TransactionDetails) (rows : List TransactionRow)
      → others (λ r. r.node_id) (recorded w d rows) ≡ others (λ r. r.node_id) rows
  unfolding recorded
  recorded-others d rows =
      let foreign = λ (r : TransactionRow). not (r.node_id =text w.node_id) in
      let key = by_txid w (hexed w.txid_codec d.txid) in
      elim (Option-cases (find key rows)) [
        | inl missing ↦
            rw (missing, recorded)
              (select-append_apart foreign (new_transaction w d) rows
                (ground (arith, =text_refl w.node_id)))
        | inr (row, found) ↦
            let hit = find_sound key rows row found in
            let own : row.node_id ≡ w.node_id =
              ground (arith, hit, =text_iff row.node_id w.node_id) in
            rw (found, recorded)
              (select-put_apart foreign (same_transaction (with_details w d row))
                (with_details w d row) rows (ground (arith, hit))
                (λ x same. ground (
                  arith,
                  same,
                  own,
                  =text_iff x.node_id row.node_id,
                  =text_iff x.node_id w.node_id,
                )))
      ]

  after-others :
      (tx : Transaction) (height time : Option ℕ) (st : Stored)
      → others (λ r. r.node_id) (after w st tx height time).transactions
        ≡ others (λ r. r.node_id) st.transactions
  unfolding after
  after-others tx height time st =
      let same = ap (others (λ (r : TransactionRow). r.node_id)) (transactions-moved w st tx) in
      elim (Bool-cases (concerns_us w st tx)) [
        | inl ours ↦
            rw (ours, after)
              (recorded-others (details w st tx height time) (moved w st tx).transactions ∙ same)
        | inr none_ours ↦ rw (none_ours, after) same
      ]

  after_all-others :
      (txdata : List Transaction) (height time : ℕ) (st : Stored)
      → others (λ r. r.node_id) (after_all w txdata height time st).transactions
        ≡ others (λ r. r.node_id) st.transactions
  after_all-others [] height time st = refl
  after_all-others (tx ∷ txdata) height time st =
      after_all-others txdata height time (after w st tx (some height) (some time))
      ∙ after-others tx (some height) (some time) st

module _ (w : WalletDatabase) where
  -- The record of the block, at the end.
  abbrev recording : LastSync → Action (Unit {0})
  recording last = do _ ← unwrapped (create_or_update_last_onchain_wallet_sync w last); pure tt

  -- The rows that are not the node's, and all scripts, are as before.
  abbrev AreKept : Stored → Stored → Type 0
  AreKept st st' =
      (others w (λ r. r.node_id) st'.transactions ≡ others w (λ r. r.node_id) st.transactions)
      × (others w (λ r. r.node_id) st'.keychains ≡ others w (λ r. r.node_id) st.keychains)
      × (others w (λ r. r.node_id) st'.kv_store ≡ others w (λ r. r.node_id) st.kv_store)
      × (st'.script_pubkeys ≡ st.script_pubkeys)

  AreKept-then : (a b c : Stored) → AreKept a b → AreKept b c → AreKept a c
  AreKept-then a b c first second =
      (second.0 ∙ first.0, second.1 ∙ first.1, second.2 ∙ first.2, second.3 ∙ first.3)

module _ (w : WalletDatabase) (up : IsUp w) where
  block_AreKept :
      (txdata : List Transaction) (height time : ℕ) (st : Stored)
      → AreKept w st (after_all w txdata height time st)
  block_AreKept txdata height time st = (
    after_all-others w txdata height time st,
    ap (others w (λ (r : KeychainRow). r.node_id))
        (kept-after_all w (λ s. s.keychains) (λ _ _. refl) (λ _ _. refl) txdata height time st),
    ap (others w (λ (r : KvRow). r.node_id))
        (kept-after_all w (λ s. s.kv_store) (λ _ _. refl) (λ _ _. refl) txdata height time st),
    kept-after_all w (λ s. s.script_pubkeys) (λ _ _. refl) (λ _ _. refl) txdata height time st,
  )

  bump_AreKept :
      (k : KeychainKind) (paid : Option ℕ) (st : Stored)
      → first_unused paid < 2 ^ 31
      → AreKept w st (bump_index w k paid st).1
  bump_AreKept k paid st small = (
    ap (others w (λ (r : TransactionRow). r.node_id))
        (bump_index-rest w up (λ s. s.transactions) (λ _ _. refl) k paid st small),
    bump_index-foreign w up k paid st small,
    ap (others w (λ (r : KvRow). r.node_id))
        (bump_index-rest w up (λ s. s.kv_store) (λ _ _. refl) k paid st small),
    bump_index-rest w up (λ s. s.script_pubkeys) (λ _ _. refl) k paid st small,
  )

  sync_AreKept :
      (last : LastSync) (st : Stored) → HasSync w st.kv_store → AreKept w st (recording w last st).1
  sync_AreKept last st sync =
      let (rows, foreign, (r, done)) = recorded_sync w up last st sync in
      let run : (recording w last st).1 ≡ record st { kv_store = rows } = ground (arith, done) in
      subst (AreKept w st) (sym run) (refl, refl, foreign, refl)

  -- For a block whose transactions the wallet can take in one after the other, whose highest paid
  -- children fit their columns, where the recorded block can be read if there is one: the
  -- transactions, the indexes and the recorded blocks of the other nodes are as before, and so are
  -- all scripts.
  pub filtered_block_connected-others :
      (header : BlockHeader) (txdata : List Transaction) (height now : ℕ) (st : Stored)
      → AreProcessable w txdata height header.time st
      → HasSync w st.kv_store
      → first_unused (derivs_all w txdata height header.time no_deriv st).external_max < 2 ^ 31
      → first_unused (derivs_all w txdata height header.time no_deriv st).internal_max < 2 ^ 31
      → let st' = (filtered_block_connected w header txdata height now st).1 in
        (others w (λ r. r.node_id) st'.transactions ≡ others w (λ r. r.node_id) st.transactions)
        × (others w (λ r. r.node_id) st'.keychains ≡ others w (λ r. r.node_id) st.keychains)
        × (others w (λ r. r.node_id) st'.kv_store ≡ others w (λ r. r.node_id) st.kv_store)
        × (st'.script_pubkeys ≡ st.script_pubkeys)
  unfolding filtered_block_connected
  filtered_block_connected-others header txdata height now st can sync small_external
        small_internal =
      let m = derivs_all w txdata height header.time no_deriv st in
      let st₁ = after_all w txdata height header.time st in
      let st₂ = (bump_index w external m.external_max st₁).1 in
      let st₃ = (bump_index w internal m.internal_max st₂).1 in
      let last : LastSync = record { height = height; hash = header.block_hash; timestamp = now } in
      let record_it = recording w last in
      let one = block_AreKept txdata height header.time st in
      let two =
        AreKept-then w st st₁ st₂ one (bump_AreKept external m.external_max st₁ small_external) in
      let three =
        AreKept-then w st st₂ st₃ two (bump_AreKept internal m.internal_max st₂ small_internal) in
      let same_rows : st₃.kv_store ≡ st.kv_store =
        bump_index-rest w up (λ s. s.kv_store) (λ _ _. refl) internal m.internal_max st₂
          small_internal
        ∙ bump_index-rest w up (λ s. s.kv_store) (λ _ _. refl) external m.external_max st₁
            small_external
        ∙ kept-after_all w (λ s. s.kv_store) (λ _ _. refl) (λ _ _. refl) txdata height header.time
            st in
      let four =
        AreKept-then w st st₃ (record_it st₃).1 three
          (sync_AreKept last st₃ (subst (HasSync w) (sym same_rows) sync)) in
      let raises : AreKept w st
          ((bump_index w external m.external_max
              >> (bump_index w internal m.internal_max >> record_it))
            st₁).1 =
        after-bind (AreKept w st) (bump_index w external m.external_max)
          (λ _. bump_index w internal m.internal_max >> record_it) st₁ two
          (λ _.
            after-bind (AreKept w st) (bump_index w internal m.internal_max) (λ _. record_it) st₂
              three (λ _. four)) in
      let block = process_block-after_all w up txdata height header.time no_deriv st can in
      let run : (filtered_block_connected w header txdata height now st).1
          ≡ ((bump_index w external m.external_max
                >> (bump_index w internal m.internal_max >> record_it))
              st₁).1 =
        ground (arith, block) in
      subst (AreKept w st) (sym run) raises
