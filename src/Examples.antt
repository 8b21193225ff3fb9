-- ===== src/Examples.antt =====
-- The theorems of the library at concrete inputs.
mod Wire
mod Parse
mod Ticket
mod Mutation
mod Transaction
mod Descriptor
mod Snapshot
mod Capacity
mod Create
