-- ===== src/Smt/Proving.antt =====
-- core/smt/src/proving: the multi-proof.
pub mod Topology
pub mod Traversal
pub mod Shape
pub mod Lays
pub mod Walk
pub mod Builder
pub mod Collected
pub mod Absent
pub mod Complete
pub mod Unique
pub mod Classes
pub mod Root
pub mod Post
pub mod Member
pub mod Wire
