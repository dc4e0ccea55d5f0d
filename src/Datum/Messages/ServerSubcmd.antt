-- ===== src/Datum/Messages/ServerSubcmd.antt =====
-- `server_subcmd` of core/src/datum/messages.rs: the first byte of what the pool sends.
use ratum.Base.{ℕ}

abbrev pub config : ℕ
config = 0x99

abbrev pub coinbaser : ℕ
coinbaser = 0x11

abbrev pub share_response : ℕ
share_response = 0x8f

abbrev pub blocknotify : ℕ
blocknotify = 0xf9

abbrev pub migration : ℕ
migration = 0xa4
