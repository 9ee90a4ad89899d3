-- ===== src/Channels.antt =====
-- senseicore/src/channels.rs: the opening of a batch of channels with one funding transaction.
pub mod Types
pub mod Wait
pub mod Open
pub mod Rounds
pub mod Funding
pub mod Tests
