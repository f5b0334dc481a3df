-- ===== src/Examples.antt =====
-- Tests, and the claims applied at concrete inputs.
pub mod Values
mod Storage
mod Placement
mod Concurrency
mod Ingesting
mod Feeds
mod Clusters
mod Wire
mod Protocol
mod Disk
