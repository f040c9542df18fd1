-- ===== src/Wallet.antt =====
-- The package `wallet`.
pub mod Gas
pub mod Accounts
pub mod Send
pub mod Upgraded
pub mod Nonce
pub mod KeyStore
pub mod Signers
pub mod Neo
mod Tests
mod SignerTests
