-- ===== src/Tests.antt =====
-- Runs of the modelled code at fixed inputs, and each property at an input that meets its hypotheses.
pub mod Core
pub mod Config
pub mod Daemon
pub mod Drain
pub mod Image
pub mod Route
pub mod Order
pub mod Selection
pub mod Storage
pub mod Transfer
pub mod Wayland
