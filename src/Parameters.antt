-- ===== src/Parameters.antt =====
-- src/parameters.rs: snapshots of remote parameter services.
pub mod Value
pub mod Poll
pub mod Tick
pub mod Keys
pub mod Shapes
pub mod Branches
pub mod Ticking
pub mod Run
pub mod Deadline
pub mod Persist
mod Tests
