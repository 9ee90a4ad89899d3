-- ===== src/Grpc.antt =====
-- The gRPC interface to a node: src/grpc/node.rs, src/grpc/adaptor.rs and the conversions of
-- src/grpc/mod.rs.
pub mod Calls
pub mod Contents
pub mod Requests
pub mod Replies
pub mod Service
pub mod Echo
pub mod Tests
pub mod Fits
pub mod Messages
pub mod Methods
