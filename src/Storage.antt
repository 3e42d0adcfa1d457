-- ===== src/Storage.antt =====
-- The storage crate: crates/storage/src.
pub mod Tables
pub mod Chunked
pub mod Rows
pub mod Db
pub mod Queries
pub mod Cache
pub mod Facade
