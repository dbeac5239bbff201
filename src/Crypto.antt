-- ===== src/Crypto.antt =====
-- Package crypto: hashing (crypto/hash.go), Merkle trees (crypto/merkle.go), Base58 (crypto/base58.go).
pub mod Hash
pub mod Merkle
pub mod Base58
