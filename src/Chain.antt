-- ===== src/Chain.antt =====
-- storage/canonical-chain/src: the fork-aware canonical chain over batch ids.
pub mod Bucket
mod Tests
pub mod HotZone
pub mod Snapshot
pub mod Oracle
pub mod Manager
