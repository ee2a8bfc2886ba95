-- ===== src/Publishing.antt =====
-- src/publish.rs: the session in which a backend publishes.
pub mod Rcl
pub mod Loops
pub mod Session
pub mod Timing
pub mod Delivery
mod Tests
