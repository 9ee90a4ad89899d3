-- ===== src/Node.antt =====
-- A running node and the requests to it: senseicore/src/node.rs and senseicore/src/services/node.rs.
pub mod Queries
pub mod Answers
pub mod Balance
pub mod Call
pub mod Types
pub mod Tests
