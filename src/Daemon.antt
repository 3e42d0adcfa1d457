-- ===== src/Daemon.antt =====
-- The daemon: crates/daemon/src.
pub mod Spool
pub mod Worker
