-- ===== src/Net.antt =====
-- net.rs: the HTTP surface of a shard, its two access layers, and the client that calls it.
pub mod Access
pub mod Queries
pub mod Server
pub mod Remote
