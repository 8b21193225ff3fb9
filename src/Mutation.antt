-- ===== src/Mutation.antt =====
-- internal/mutation: the computation of a post record from a canonical record and an envelope.
pub mod Payload
pub mod Context
pub mod Step
pub mod Finalize
pub mod Create
pub mod Apply
pub mod Lifecycle
pub mod Chain
pub mod Memory
pub mod Outcomes
pub mod Roles
pub mod RoundTrips
