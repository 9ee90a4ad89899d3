-- ===== src/Broadcaster/Debounce.antt =====
-- How often a debounced transaction goes out.
use sensei.Prelude.{
  ℕ, zero, suc, ◌+◌, ◌-◌, ◌^◌, ◌<◌, ◌≤◌, ltb, ◌≡◌, refl, ap, ◌∙◌, some, List, [], ◌∷◌, ◌++◌, Text,
  =text_iff, ok, arith, if◌then◌else◌, inl, inr, Bool-cases,
}
use sensei.Maps.{lookup, insert, lookup-insert}
use sensei.Wallet.Types.{WalletDatabase, Transaction}
use sensei.Broadcaster.{
  SenseiBroadcaster, set_debounce, broadcast, broadcast_transaction, decrement,
}

module _ (w : WalletDatabase) where
  -- The broadcaster after `n` offers of one transaction.
  unfoldable pub offered : ℕ → Transaction → SenseiBroadcaster → SenseiBroadcaster
  offered zero tx b = b
  offered (suc n) tx b = offered n tx (broadcast_transaction w tx b).1

  broadcasts-broadcast :
      (tx : Transaction) (b : SenseiBroadcaster)
      → ((broadcast w tx b).1.broadcasts ≡ b.broadcasts ++ tx ∷ [])
        × ((broadcast w tx b).1.debounce ≡ b.debounce)
  unfolding broadcast
  broadcasts-broadcast tx b = ground arith

  -- A count above one is lowered, and nothing goes out.
  held :
      (n : ℕ) (tx : Transaction) (b : SenseiBroadcaster)
      → lookup tx.txid b.debounce ≡ some (suc (suc n))
      → suc (suc n) < 2 ^ 64
      → (broadcast_transaction w tx b
          ≡ (ok tt, record b { debounce = insert tx.txid (suc n) b.debounce }))
  unfolding broadcast_transaction
  held n tx b e small =
      let low : decrement (suc (suc n)) ≡ suc n = omega arith in ground (arith, e, low)

  count-insert :
      (txid : Text) (n : ℕ) (m : List (Text × ℕ)) → lookup txid (insert txid n m) ≡ some n
  count-insert txid n m = ground (arith, lookup-insert txid txid n m, =text_iff txid txid)

  last_offer :
      (tx : Transaction) (b : SenseiBroadcaster)
      → lookup tx.txid b.debounce ≡ some 1
      → ((broadcast_transaction w tx b).1.broadcasts ≡ b.broadcasts ++ tx ∷ [])
        × (lookup tx.txid (broadcast_transaction w tx b).1.debounce ≡ some 0)
  unfolding broadcast_transaction
  last_offer tx b e = ground (
    arith,
    e,
    broadcasts-broadcast tx (record b { debounce = insert tx.txid 0 b.debounce }),
    count-insert tx.txid 0 b.debounce,
  )

  offers :
      (n k : ℕ) (tx : Transaction) (b : SenseiBroadcaster)
      → lookup tx.txid b.debounce ≡ some (suc n)
      → suc n < 2 ^ 64
      → k ≤ n
      → ((offered k tx b).broadcasts ≡ b.broadcasts)
        × (lookup tx.txid (offered k tx b).debounce ≡ some (suc n - k))
  unfolding offered
  offers n zero tx b e small le = (refl, e ∙ ap some (omega arith))
  offers zero (suc k) tx b e small le = absurd (omega arith)
  offers (suc n) (suc k) tx b e small le =
      let run = held n tx b e small in
      let b' = record b { debounce = insert tx.txid (suc n) b.debounce } in
      let (same, count) =
        offers n k tx b' (count-insert tx.txid (suc n) b.debounce) (omega arith) (omega arith) in
      rw (offered, run) (same, count ∙ ap some (omega arith))

  -- A count that is down to 0 wraps around, so that the next offers are held back for good.
  offers_after :
      (k : ℕ) (tx : Transaction) (b : SenseiBroadcaster)
      → lookup tx.txid b.debounce ≡ some 0
      → k < 2 ^ 64
      → (offered k tx b).broadcasts ≡ b.broadcasts
  unfolding offered broadcast_transaction
  offers_after zero tx b e small = refl
  offers_after (suc k) tx b e small =
      let b' = record b { debounce = insert tx.txid (2 ^ 64 - 1) b.debounce } in
      let run : broadcast_transaction w tx b ≡ (ok tt, b') = ground (arith, e) in
      let (same, count) =
        offers (2 ^ 64 - 2) k tx b' (count-insert tx.txid (2 ^ 64 - 1) b.debounce) (omega arith)
          (omega arith) in
      rw (offered, run) same

  offered-add :
      (m n : ℕ) (tx : Transaction) (b : SenseiBroadcaster)
      → offered (m + n) tx b ≡ offered n tx (offered m tx b)
  unfolding offered
  offered-add zero n tx b =
      let none_more : 0 + n ≡ n = omega arith in ap (λ j. offered j tx b) none_more
  offered-add (suc m) n tx b =
      let step : suc m + n ≡ suc (m + n) = omega arith in
      rw step (offered-add m n tx (broadcast_transaction w tx b).1)

  offered_last :
      (n : ℕ) (tx : Transaction) (b : SenseiBroadcaster)
      → offered (suc n) tx b ≡ (broadcast_transaction w tx (offered n tx b)).1
  unfolding offered
  offered_last zero tx b = refl
  offered_last (suc n) tx b = offered_last n tx (broadcast_transaction w tx b).1

  -- With a debounce of `n`, at least 1 and below 2^64: the first `n - 1` offers of the transaction
  -- hand nothing to the chain's broadcaster, the `n`-th hands it over once, and no later one does,
  -- for the next 2^64 - 1 offers.
  pub broadcast_transaction-debounced :
      (n k : ℕ) (tx : Transaction) (b : SenseiBroadcaster)
      → 0 < n
      → n < 2 ^ 64
      → k < n + 2 ^ 64
      → (offered k tx (set_debounce tx.txid n b)).broadcasts
        ≡ (if ltb k n then b.broadcasts else b.broadcasts ++ tx ∷ [])
  unfolding set_debounce
  broadcast_transaction-debounced zero k tx b pos small le = absurd (omega arith)
  broadcast_transaction-debounced (suc n) k tx b pos small le =
      let b₀ = record b { debounce = insert tx.txid (suc n) b.debounce } in
      let start = count-insert tx.txid (suc n) b.debounce in
      let (same, count) = offers n n tx b₀ start small (omega arith) in
      let one : lookup tx.txid (offered n tx b₀).debounce ≡ some 1 =
        count ∙ ap some (omega arith) in
      let (out, done) = last_offer tx (offered n tx b₀) one in
      elim (Bool-cases (ltb k (suc n))) [
        | inl early ↦ rw early (offers n k tx b₀ start small (ground arith)).0
        | inr late ↦
            let later =
              offers_after (k - suc n) tx (broadcast_transaction w tx (offered n tx b₀)).1 done
                (ground arith) in
            let split : k ≡ suc n + (k - suc n) = ground arith in
            ground (
              arith,
              ap (λ j. (offered j tx b₀).broadcasts) split,
              offered-add (suc n) (k - suc n) tx b₀,
              offered_last n tx b₀,
              later,
              out,
              same,
            )
      ]
