-- ===== src/Datum.antt =====
-- The DATUM protocol (core/src/datum).
pub mod Framing
pub mod Bulk
pub mod Messages
