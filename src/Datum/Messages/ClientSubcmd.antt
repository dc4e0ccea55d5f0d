-- ===== src/Datum/Messages/ClientSubcmd.antt =====
-- `client_subcmd` of core/src/datum/messages.rs: the first byte of what a gateway sends.
use ratum.Base.{ℕ}

abbrev pub coinbaser_request : ℕ
coinbaser_request = 0x10

abbrev pub submit_pow : ℕ
submit_pow = 0x27
