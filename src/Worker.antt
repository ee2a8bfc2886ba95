-- ===== src/Worker.antt =====
-- src/lib.rs: the graph worker.
pub mod Backoff
pub mod Persist
pub mod Snapshot
pub mod Session
pub mod Pass
pub mod Gate
pub mod Polling
pub mod Steps
pub mod Sessions
mod PassTests
mod Tests
