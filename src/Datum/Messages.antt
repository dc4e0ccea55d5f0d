-- ===== src/Datum/Messages.antt =====
-- core/src/datum/messages.rs: what every message is built from, the subcommand byte it opens with
-- and the terminator it ends with, and the errors of its encoder and decoder.
pub mod ServerSubcmd
pub mod ClientSubcmd
pub mod Laws
pub mod Coinbaser
pub mod Share
pub mod Config
pub mod Abw
pub mod ShareResponse
pub mod Validation
use ratum.Base.{ℕ, String, Option, List, Bool, not, ◌==◌}
use ratum.Reader.{
  Truncated, FromTruncated, ByteReader, Read, ◌>>=◌, ◌>>◌, pure, fail, fail_if, new, u8, at_end,
}

pub data Error : Type 0 where
  truncated_at : Truncated → Error
  bad_version bad_flags bad_status bad_slot : ℕ → Error
  wrong_message : ℕ → ℕ → Error
  bad_terminator : Error
  malformed : String → Error
  too_long out_of_range : String → ℕ → Error
  min_difficulty_not_power_of_two prime_id_too_wide : ℕ → Error
  split_exceeds_value : ℕ → ℕ → Error
  bad_extranonce_size : ℕ → Error
  bad_username : Error
  bad_merkle_count unknown_section : ℕ → Error
  bad_blake2b_section missing_blake2b_section : Error

instance abbrev pub from_truncated : FromTruncated Error
from_truncated = record { from_truncated = truncated_at }

abbrev pub struct_end : ℕ
struct_end = 0xfe

-- `open_message(data, subcmd)?`, on the reader that stands at the start of `data`.
unfoldable pub open_message : ℕ → Read Error (Unit {0})
open_message subcmd = do
  got ← u8 "subcommand"
  fail_if (not (got == subcmd)) (wrong_message subcmd got)

unfoldable pub read_terminator : Read Error (Unit {0})
read_terminator = do b ← u8 "terminator"; fail_if (not (b == struct_end)) bad_terminator

unfoldable pub read_final_terminator : Read Error (Unit {0})
read_final_terminator = do
  read_terminator
  λ c. fail_if (not (at_end c)) (malformed "bytes after the terminator") c
