-- ===== src/Ticket.antt =====
-- internal/ticket: the ticket record, its validation, the dependency checks and the derived view.
pub mod Names
pub mod Record
pub mod Fields
pub mod Validate
pub mod Inventory
