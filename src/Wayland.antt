-- ===== src/Wayland.antt =====
-- The Wayland crate: crates/wayland/src.
pub mod Ingest
pub mod Selection
pub mod Drain
