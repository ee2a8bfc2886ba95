-- ===== src/Messages.antt =====
-- src/messages.rs: table-backed subscriptions.
pub mod Mailbox
pub mod Flush
pub mod Newest
pub mod Reconcile
pub mod Reading
mod Tests
pub mod Dropped
pub mod Kept
