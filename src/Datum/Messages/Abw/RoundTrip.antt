-- ===== src/Datum/Messages/Abw/RoundTrip.antt =====
-- Each message is read back as it was written.
use ratum.Base.{
  ℕ, ◌<◌, ◌≡◌, refl, arith, List, [], ◌∷◌, length, ok, Bool, true, false, not, ◌==◌, if◌then◌else◌,
}
use ratum.Base.Bits.{bit_and}
use ratum.Reader.{cursor}
use ratum.Reader.Laws.{>>=_ok, u8-cons, arr-append, run_ok, fail_if-false}
use ratum.Datum.Messages.{from_truncated}
use ratum.Datum.Messages.Laws.{open_message-cons, read_final_terminator-cons}
use ratum.Datum.Messages.Abw.{
  AssignmentNotice, Activation, CandidateRef, Reveal, message, open_revision, slot_checked,
  read_slot, draft_revision, assignment_slots, assignment_active, encode_notice, read_notice,
  decode_notice, encode_candidate, read_candidate, decode_candidate, encode_reveal, read_reveal,
  decode_reveal, encode_activation, read_activation, decode_activation,
}

open_revision-cons :
    (subcmd : ℕ) (w r : List ℕ)
    → open_revision subcmd (cursor w (subcmd ∷ draft_revision ∷ r)) ≡ ok (tt, cursor w r)
unfolding open_revision
open_revision-cons subcmd w r =
    >>=_ok _ _ (open_message-cons subcmd w (draft_revision ∷ r))
      (>>=_ok _ _ (u8-cons "revision" w r draft_revision) refl)

pub read_slot-cons :
    (slot : ℕ) (w r : List ℕ)
    → slot < assignment_slots
    → read_slot (cursor w (slot ∷ r)) ≡ ok (slot, cursor w r)
unfolding read_slot slot_checked
read_slot-cons slot w r h =
    >>=_ok _ _ (u8-cons "slot" w r slot) (>>=_ok _ _ (fail_if-false _ _ (ground arith)) refl)

known_flags : (b : Bool) → not (bit_and (if b then assignment_active else 0) 0xfe == 0) ≡ false
known_flags true = refl
known_flags false = refl

active_flag :
    (b : Bool) → not (bit_and (if b then assignment_active else 0) assignment_active == 0) ≡ b
active_flag true = refl
active_flag false = refl

-- A notice of an assigned slot and a 32-byte hash is decoded to itself, its flag included.
pub decode_notice-encode_notice :
    (n : AssignmentNotice)
    → n.slot < assignment_slots
    → length n.key_hash ≡ 32
    → decode_notice (encode_notice n) ≡ ok n
unfolding decode_notice read_notice encode_notice message
decode_notice-encode_notice n hs hh = run_ok read_notice {c' = cursor (encode_notice n) []} (
    >>=_ok _ _ (open_revision-cons _ _ _) (
      >>=_ok _ _ (u8-cons _ _ _ _) (
        >>=_ok _ _ (fail_if-false _ _ (known_flags n.active)) (
          >>=_ok _ _ (read_slot-cons _ _ _ hs) (
            >>=_ok _ _ (arr-append 32 _ _ _ _ hh)
              (>>=_ok _ _ (read_final_terminator-cons _) (rw (active_flag n.active))))))))

-- A reference to a candidate, as a receipt or as a release, is decoded to itself.
pub decode_candidate-encode_candidate :
    (subcmd : ℕ) (c : CandidateRef)
    → c.slot < assignment_slots
    → length c.raw_pow_hash_le ≡ 32
    → decode_candidate (encode_candidate subcmd c) subcmd ≡ ok c
unfolding decode_candidate read_candidate encode_candidate message
decode_candidate-encode_candidate subcmd c hs hh = run_ok (read_candidate subcmd) (
    >>=_ok _ _ (open_revision-cons _ _ _) (
      >>=_ok _ _ (read_slot-cons _ _ _ hs)
        (>>=_ok _ _ (arr-append 32 _ _ _ _ hh) (>>=_ok _ _ (read_final_terminator-cons _) refl))))

-- A disclosed key is decoded to itself.
pub decode_reveal-encode_reveal :
    (r : Reveal)
    → r.slot < assignment_slots
    → length r.xor_key ≡ 16
    → decode_reveal (encode_reveal r) ≡ ok r
unfolding decode_reveal read_reveal encode_reveal message
decode_reveal-encode_reveal r hs hh = run_ok read_reveal (
    >>=_ok _ _ (open_revision-cons _ _ _) (
      >>=_ok _ _ (read_slot-cons _ _ _ hs)
        (>>=_ok _ _ (arr-append 16 _ _ _ _ hh) (>>=_ok _ _ (read_final_terminator-cons _) refl))))

pub decode_activation-encode_activation :
    (a : Activation) → a.slot < assignment_slots → decode_activation (encode_activation a) ≡ ok a
unfolding decode_activation read_activation encode_activation message
decode_activation-encode_activation a hs = run_ok read_activation (
    >>=_ok _ _ (open_revision-cons _ _ _)
      (>>=_ok _ _ (read_slot-cons _ _ _ hs) (>>=_ok _ _ (read_final_terminator-cons _) refl)))
