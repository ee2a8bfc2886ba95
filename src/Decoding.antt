-- ===== src/Decoding.antt =====
-- src/publish/json.rs: the decoder of JSON objects into ROS messages.
pub mod Scalar
pub mod Loops
pub mod Simple
pub mod Elements
pub mod Decode
pub mod Typed
pub mod Safe
pub mod SafeElements
pub mod SafeDecode
mod Tests
pub mod Range
pub mod FieldAccess
