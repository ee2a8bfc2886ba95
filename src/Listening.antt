-- ===== src/Listening.antt =====
-- src/subscriptions.rs: `receive`, the subscription that notifies the messages of one topic.
pub mod Receiver
pub mod Notices
pub mod Channel
pub mod Draining
pub mod Finding
pub mod Rounds
pub mod Run
pub mod Call
mod Tests
