-- ===== src/Core.antt =====
-- The core crate: crates/core/src.
pub mod Constants
pub mod Cdc
pub mod Text
pub mod Mime
pub mod Config
pub mod Payload
pub mod Splice
pub mod Uri
