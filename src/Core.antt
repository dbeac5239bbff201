-- ===== src/Core.antt =====
-- Package core: the data, and a module for each of its files.
pub mod Types
pub mod Platform
pub mod Utils
pub mod Reward
pub mod Fee
pub mod Transaction
pub mod Pow
pub mod Block
pub mod Utxo
pub mod Chain
pub mod Fork
pub mod Validate
pub mod Validation
pub mod Mempool
pub mod Payment
pub mod Json
