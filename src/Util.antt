-- ===== src/Util.antt =====
-- The package `util`.
pub mod Singleton
pub mod Numbers
pub mod Bytes
pub mod Retry
