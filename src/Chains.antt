-- ===== src/Chains.antt =====
-- The package `chains`.
mod Tests
mod SelectTests
mod KeyTests
mod ClientTests
pub mod Sdk
pub mod Package
pub mod Eth
pub mod Storage
pub mod Poly
pub mod Ont
pub mod Neo
pub mod Harmony
pub mod Starcoin
pub mod Switcheo
pub mod Bridge
pub mod Shared
