-- ===== src/Datum/Messages/Abw.antt =====
-- core/src/datum/messages/abw.rs: the messages that assign a slot against block withholding,
-- acknowledge a candidate and disclose a slot's key.
--
-- A 32-byte hash and a 16-byte key are lists; `flags & !ASSIGNMENT_ACTIVE` of a byte is its mask
-- by 0xfe.
pub mod RoundTrip
use ratum.Base.{ℕ, ◌+◌, min, List, [], ◌∷◌, ◌++◌, Bool, not, ◌==◌, leb, if◌then◌else◌, Result}
use ratum.Base.Bits.{bit_and}
use ratum.Reader.{Read, ◌>>=◌, ◌>>◌, pure, fail_if, run, new, u8, arr}
use ratum.Datum.Messages.{
  Error, from_truncated, struct_end, open_message, read_final_terminator, bad_version, bad_flags,
  bad_slot,
}

abbrev pub draft_revision : ℕ
draft_revision = 0

abbrev pub assignment_slots : ℕ
assignment_slots = 16

abbrev pub share_target_base_bits : ℕ
share_target_base_bits = 32

abbrev pub assignment_active : ℕ
assignment_active = 0x01

abbrev pub candidate_receipt : ℕ
candidate_receipt = 0xa5

abbrev pub activation : ℕ
activation = 0xa6

abbrev pub candidate_release : ℕ
candidate_release = 0xa7

abbrev pub assignment_notice : ℕ
assignment_notice = 0xa8

abbrev pub reveal : ℕ
reveal = 0xa9

unfoldable pub clear_bits : ℕ → ℕ
clear_bits target_byte = min (share_target_base_bits + target_byte) 255

pub record AssignmentNotice : Type 0 where
  pub active : Bool
  pub slot : ℕ
  pub key_hash : List ℕ

pub record Activation : Type 0 where
  pub slot : ℕ

pub record CandidateRef : Type 0 where
  pub slot : ℕ
  pub raw_pow_hash_le : List ℕ

pub record Reveal : Type 0 where
  pub slot : ℕ
  pub xor_key : List ℕ

-- `message(subcmd, |out| …)`, the closure's bytes given.
unfoldable pub message : ℕ → List ℕ → List ℕ
message subcmd body = subcmd ∷ draft_revision ∷ (body ++ (struct_end ∷ []))

-- `open(data, subcmd)?`.
unfoldable pub open_revision : ℕ → Read Error (Unit {0})
open_revision subcmd = do
  open_message subcmd
  rev ← u8 "revision"
  fail_if (not (rev == draft_revision)) (bad_version rev)

unfoldable pub slot_checked : ℕ → Read Error ℕ
slot_checked slot = do fail_if (leb assignment_slots slot) (bad_slot slot); pure slot

-- `c.u8("slot")` under `slot_checked`.
unfoldable pub read_slot : Read Error ℕ
read_slot = do b ← u8 "slot"; slot_checked b

unfoldable pub encode_notice : AssignmentNotice → List ℕ
encode_notice n =
    message assignment_notice ((if n.active then assignment_active else 0) ∷ n.slot ∷ n.key_hash)

unfoldable pub read_notice : Read Error AssignmentNotice
read_notice = do
  open_revision assignment_notice
  flags ← u8 "flags"
  fail_if (not (bit_and flags 0xfe == 0)) (bad_flags flags)
  s ← read_slot
  h ← arr 32 "key hash"
  read_final_terminator
  pure (record { active = not (bit_and flags assignment_active == 0); slot = s; key_hash = h })

unfoldable pub decode_notice : List ℕ → Result Error AssignmentNotice
decode_notice bytes = run read_notice (new bytes)

unfoldable pub encode_activation : Activation → List ℕ
encode_activation a = message activation (a.slot ∷ [])

unfoldable pub read_activation : Read Error Activation
read_activation = do
  open_revision activation
  s ← read_slot
  read_final_terminator
  pure (record { slot = s })

unfoldable pub decode_activation : List ℕ → Result Error Activation
decode_activation bytes = run read_activation (new bytes)

unfoldable pub encode_candidate : ℕ → CandidateRef → List ℕ
encode_candidate subcmd c = message subcmd (c.slot ∷ c.raw_pow_hash_le)

unfoldable pub read_candidate : ℕ → Read Error CandidateRef
read_candidate subcmd = do
  open_revision subcmd
  s ← read_slot
  h ← arr 32 "raw pow hash"
  read_final_terminator
  pure (record { slot = s; raw_pow_hash_le = h })

unfoldable pub decode_candidate : List ℕ → ℕ → Result Error CandidateRef
decode_candidate bytes subcmd = run (read_candidate subcmd) (new bytes)

unfoldable pub encode_reveal : Reveal → List ℕ
encode_reveal r = message reveal (r.slot ∷ r.xor_key)

unfoldable pub read_reveal : Read Error Reveal
read_reveal = do
  open_revision reveal
  s ← read_slot
  k ← arr 16 "xor key"
  read_final_terminator
  pure (record { slot = s; xor_key = k })

unfoldable pub decode_reveal : List ℕ → Result Error Reveal
decode_reveal bytes = run read_reveal (new bytes)
