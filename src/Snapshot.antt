-- ===== src/Snapshot.antt =====
-- internal/snapshot: the descriptor of a staged transaction.
pub mod Stage
pub mod Paths
pub mod Head
pub mod Places
pub mod Receipt
pub mod Shape
pub mod Descriptor
