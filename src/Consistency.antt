-- ===== src/Consistency.antt =====
-- zConsistency: the outbox and inbox stores.
pub mod Contract
pub mod Retry
pub mod Selection
pub mod Outbox
pub mod Inbox
pub mod Transaction
