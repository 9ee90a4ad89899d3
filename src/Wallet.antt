-- ===== src/Wallet.antt =====
-- senseicore/src/chain/database.rs: the on-chain wallet of a node, kept in the database and fed with
-- transactions and blocks.
pub mod Types
pub mod Store
pub mod Queries
pub mod Operations
pub mod Reads
pub mod Process
pub mod Blocks
pub mod Views
pub mod Spends
pub mod Creates
pub mod Sums
pub mod Lookup
pub mod Records
pub mod Refines
pub mod Effects
pub mod Indexes
pub mod Scripts
pub mod Sync
pub mod Tests
pub mod Mempool
pub mod Connected
pub mod Isolation
