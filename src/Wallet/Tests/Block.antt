-- ===== src/Wallet/Tests/Block.antt =====
-- A block of one transaction.
use sensei.Prelude.{
  ◌≡◌, refl, [], ◌∷◌, List, ok, arith, inl, subst, sym, All, append-nil, none, some,
}
use sensei.Text.{codes}
use sensei.Wallet.Types.{KeychainKind, Transaction}
use sensei.Wallet.Indexes.Children.{children, HasRoom}
use sensei.Wallet.Views.{path_of}
use sensei.Wallet.Process.{no_deriv}
use sensei.Wallet.Creates.{derivs}
use sensei.Wallet.Blocks.{BlockHeader, filtered_block_connected}
use sensei.Wallet.Mempool.{AreRaised}
use sensei.Wallet.Connected.{after_all, children_all, filtered_block_connected-after_all}
use sensei.Wallet.Isolation.{others, filtered_block_connected-others}
use sensei.Wallet.Tests.Memory.{memory, memory-IsUp, spending, funded}
use sensei.Wallet.Tests.{
  spending-IsProcessable, path_of-funded, funded-IsRegistered, spending-HasRoom,
}

abbrev header : BlockHeader
header = record { block_hash = codes "hash"; prev_blockhash = codes "prev"; time = 9 }

abbrev block : List Transaction
block = spending ∷ []

block-HasRoom : (k : KeychainKind) → All HasRoom (children_all memory block 8 header.time funded k)
block-HasRoom k =
    subst (All HasRoom) (sym (append-nil (children (path_of memory funded) k spending.output)))
      (spending-HasRoom k)

filtered_block_connected-after_all_example :
    let (r, st') = filtered_block_connected memory header block 8 10 funded in
    (r ≡ ok tt)
    × (st'.utxos ≡ (after_all memory block 8 header.time funded).utxos)
    × (st'.transactions ≡ (after_all memory block 8 header.time funded).transactions)
    × AreRaised memory (children_all memory block 8 header.time funded) funded st'
filtered_block_connected-after_all_example =
    filtered_block_connected-after_all memory memory-IsUp header block 8 10 funded
      (spending-IsProcessable, tt) (inl refl) funded-IsRegistered block-HasRoom

derivs-spending :
    derivs (path_of memory funded) no_deriv spending.output
    ≡ record { internal_max = none; external_max = some 3 }
unfolding derivs
derivs-spending = ground (arith, path_of-funded)

filtered_block_connected-others_example :
    let st' = (filtered_block_connected memory header block 8 10 funded).1 in
    (others memory (λ r. r.node_id) st'.transactions
      ≡ others memory (λ r. r.node_id) funded.transactions)
    × (others memory (λ r. r.node_id) st'.keychains
        ≡ others memory (λ r. r.node_id) funded.keychains)
    × (others memory (λ r. r.node_id) st'.kv_store ≡ others memory (λ r. r.node_id) funded.kv_store)
    × (st'.script_pubkeys ≡ funded.script_pubkeys)
filtered_block_connected-others_example =
    filtered_block_connected-others memory memory-IsUp header block 8 10 funded
      (spending-IsProcessable, tt) (inl refl) (ground (arith, derivs-spending))
      (ground (arith, derivs-spending))
