-- ===== src/Transaction.antt =====
-- internal/transaction: the staging area in which a transaction is prepared.
pub mod Inventory
pub mod Capacity
pub mod Stage
pub mod Cleanup
pub mod Recovery
