-- ===== src/Encoding.antt =====
-- src/subscriptions/json.rs: the bounded JSON encoder of ROS messages.
pub mod Output
pub mod Encode
pub mod Tree
pub mod Renders
pub mod Refuses
pub mod Payload
mod Tests
