-- ===== src/Bitcoin.antt =====
-- Block and transaction primitives (core/src/bitcoin.rs and core/src/bitcoin/).
pub mod Merkle
pub mod CompactSize
pub mod Transaction
