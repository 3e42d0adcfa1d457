-- ===== src/Image.antt =====
-- The image crate: crates/image/src.
pub mod Breaker
pub mod Throttle
pub mod Transcode
pub mod Pipeline
pub mod Route
