-- ===== src/Tests.antt =====
-- Runs at concrete inputs.
pub mod Instances
pub mod Services
pub mod Running
pub mod Parsing
pub mod Storing
pub mod Serving
pub mod Racing
pub mod Conversing
pub mod Listening
pub mod Living
