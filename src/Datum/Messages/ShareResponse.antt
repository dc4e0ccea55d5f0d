-- ===== src/Datum/Messages/ShareResponse.antt =====
-- core/src/datum/messages/share_response.rs: the pool's answer to a share, a verdict with a reason
-- code and, under an assignment, the reference to the candidate.
--
-- `wire_codes!` (core/src/datum/codes.rs) makes the match of `from_code` over the codes listed
-- here; it is a search of the table of codes, in the table's order.
pub mod Codes
pub mod RoundTrip
use ratum.Base.{
  ℕ, List, [], ◌∷◌, ◌++◌, Option, none, some, Bool, false, ◌&&◌, ◌==◌, ltb, if◌then◌else◌, length,
  take, drop, Result, ok, err,
}
use ratum.Base.Bytes.{le_bytes}
use ratum.Reader.{ByteReader, Read, ◌>>=◌, ◌>>◌, pure, fail, lift, run, new, u8, u16, u32}
use ratum.Datum.Messages.{Error, from_truncated, struct_end, open_message, bad_status}
use ratum.Datum.Messages.ServerSubcmd
use ratum.Datum.Messages.Abw.{CandidateRef, assignment_slots}

pub data RejectReason : Type 0 where
  bad_job_id bad_coinbase_id bad_extranonce_size bad_target : RejectReason
  bad_username bad_coinbaser_id bad_merkle_count coinbase_too_large : RejectReason
  coinbase_missing target_mismatch hash_not_zero high_hash : RejectReason
  coinbase_id_mismatch bad_ntime bad_version stale_block : RejectReason
  bad_coinbase bad_coinbase_outputs missing_pool_tag duplicate_work : RejectReason
  other bad_blake2b_section header_field_mismatch header_merkle_mismatch : RejectReason
  no_split bad_abw_slot : RejectReason
  unknown : ℕ → RejectReason

unfoldable pub code : RejectReason → ℕ
code bad_job_id = 10
code bad_coinbase_id = 11
code bad_extranonce_size = 12
code bad_target = 13
code bad_username = 14
code bad_coinbaser_id = 15
code bad_merkle_count = 16
code coinbase_too_large = 17
code coinbase_missing = 18
code target_mismatch = 19
code hash_not_zero = 20
code high_hash = 21
code coinbase_id_mismatch = 22
code bad_ntime = 23
code bad_version = 24
code stale_block = 25
code bad_coinbase = 26
code bad_coinbase_outputs = 27
code missing_pool_tag = 28
code duplicate_work = 29
code other = 30
code bad_blake2b_section = 40
code header_field_mismatch = 41
code header_merkle_mismatch = 42
code no_split = 43
code bad_abw_slot = 44
code (unknown c) = c

abbrev pub code_table : List (ℕ × RejectReason)
code_table =
    (10, bad_job_id)
    ∷ (11, bad_coinbase_id)
    ∷ (12, bad_extranonce_size)
    ∷ (13, bad_target)
    ∷ (14, bad_username)
    ∷ (15, bad_coinbaser_id)
    ∷ (16, bad_merkle_count)
    ∷ (17, coinbase_too_large)
    ∷ (18, coinbase_missing)
    ∷ (19, target_mismatch)
    ∷ (20, hash_not_zero)
    ∷ (21, high_hash)
    ∷ (22, coinbase_id_mismatch)
    ∷ (23, bad_ntime)
    ∷ (24, bad_version)
    ∷ (25, stale_block)
    ∷ (26, bad_coinbase)
    ∷ (27, bad_coinbase_outputs)
    ∷ (28, missing_pool_tag)
    ∷ (29, duplicate_work)
    ∷ (30, other)
    ∷ (40, bad_blake2b_section)
    ∷ (41, header_field_mismatch)
    ∷ (42, header_merkle_mismatch)
    ∷ (43, no_split)
    ∷ (44, bad_abw_slot)
    ∷ []

unfoldable pub find_code : List (ℕ × RejectReason) → ℕ → RejectReason
find_code [] c = unknown c
find_code ((k, r) ∷ table) c = if c == k then r else find_code table c

unfoldable pub from_code : ℕ → RejectReason
unfolding find_code
from_code c = find_code code_table c

pub data ShareVerdict : Type 0 where
  accepted accepted_tentatively : ShareVerdict
  rejected : RejectReason → ShareVerdict

abbrev pub accepted_status : ℕ
accepted_status = 0x50

abbrev pub accepted_tentatively_status : ℕ
accepted_tentatively_status = 0x55

abbrev pub rejected_status : ℕ
rejected_status = 0x66

abbrev pub share_response_abw_marker : ℕ
share_response_abw_marker = 0x06

abbrev pub abw_ref_tail_len : ℕ
abw_ref_tail_len = 33

pub record ShareResponse : Type 0 where
  pub verdict : ShareVerdict
  pub nonce : ℕ
  pub target_byte : ℕ
  pub job_id : ℕ
  pub abw_ref : Option CandidateRef

-- The status and the reason of a verdict.
unfoldable pub status_of : ShareVerdict → ℕ × ℕ
status_of accepted = (accepted_status, 0)
status_of accepted_tentatively = (accepted_tentatively_status, 0)
status_of (rejected r) = (rejected_status, code r)

unfoldable pub encode_ref : Option CandidateRef → List ℕ
encode_ref none = []
encode_ref (some r) = share_response_abw_marker ∷ r.slot ∷ (r.raw_pow_hash_le ++ (struct_end ∷ []))

unfoldable pub encode_share_response : ShareResponse → List ℕ
encode_share_response s =
    ServerSubcmd.share_response
    ∷ (status_of s.verdict).0
    ∷ (le_bytes 2 ((status_of s.verdict).1)
        ++ (le_bytes 4 s.nonce ++ (s.target_byte ∷ s.job_id ∷ encode_ref s.abw_ref)))

unfoldable pub verdict_of : (status reason : ℕ) → Result Error ShareVerdict
verdict_of status reason =
    if status == accepted_status
    then ok accepted
    else if status == accepted_tentatively_status
    then ok accepted_tentatively
    else if status == rejected_status
    then ok (rejected (from_code reason))
    else err (bad_status status)

abbrev pub is_end : List ℕ → Bool
is_end [] = false
is_end (b ∷ []) = b == struct_end
is_end (b ∷ c ∷ bs) = false

-- The match on `c.rest()`.
unfoldable pub ref_of : List ℕ → Option CandidateRef
ref_of [] = none
ref_of (m ∷ []) = none
ref_of (m ∷ slot ∷ tail) =
    if (m == share_response_abw_marker)
      && (length tail == abw_ref_tail_len)
      && ltb slot assignment_slots
      && is_end (drop 32 tail)
    then some (record { slot = slot; raw_pow_hash_le = take 32 tail })
    else none

unfoldable pub read_share_response : Read Error ShareResponse
read_share_response = do
  open_message ServerSubcmd.share_response
  status ← u8 "status"
  reason ← u16 "reason"
  v ← lift (verdict_of status reason)
  n ← u32 "nonce"
  t ← u8 "target byte"
  j ← u8 "job id"
  λ c.
      ok
        (record { verdict = v; nonce = n; target_byte = t; job_id = j; abw_ref = ref_of c.rest }, c)

unfoldable pub decode_share_response : List ℕ → Result Error ShareResponse
decode_share_response bytes = run read_share_response (new bytes)
