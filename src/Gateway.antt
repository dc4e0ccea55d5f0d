-- ===== src/Gateway.antt =====
-- The gateway (gateway/src).
pub mod Vardiff
pub mod FailedLogins
pub mod SeenShares
