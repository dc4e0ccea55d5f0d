-- ===== src/Ledger.antt =====
-- The pool's share ledger (prime/src/ledger.rs and prime/src/ledger/).
pub mod Split
pub mod Window
pub mod Record
pub mod Blocks
