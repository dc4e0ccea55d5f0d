-- ===== src/Datum/Messages/ShareResponse/Codes.antt =====
-- The codes of a rejection survive a decoding and an encoding.
use ratum.Base.{ok, ap, ℕ, ◌≡◌, refl, arith, List, [], ◌∷◌, All}
use ratum.Datum.Messages.ShareResponse.{
  RejectReason, unknown, code, code_table, find_code, from_code, ShareVerdict, accepted,
  accepted_tentatively, rejected, status_of, verdict_of, bad_job_id, bad_coinbase_id,
  bad_extranonce_size, bad_target, bad_username, bad_coinbaser_id, bad_merkle_count,
  coinbase_too_large, coinbase_missing, target_mismatch, hash_not_zero, high_hash,
  coinbase_id_mismatch, bad_ntime, bad_version, stale_block, bad_coinbase, bad_coinbase_outputs,
  missing_pool_tag, duplicate_work, other, bad_blake2b_section, header_field_mismatch,
  header_merkle_mismatch, no_split, bad_abw_slot,
}

code_unknown : (c : ℕ) → code (unknown c) ≡ c
unfolding code
code_unknown c = refl

code-find_code :
    (table : List (ℕ × RejectReason)) (c : ℕ)
    → All (λ e. code (e.1) ≡ e.0) table
    → code (find_code table c) ≡ c
unfolding find_code
code-find_code [] c h = code_unknown c
code-find_code ((k, r) ∷ table) c h = ground (arith, h.0, code-find_code table c h.1)

-- Whatever the code of a rejection is, known or not, the reason it is decoded to has that code, so
-- it is written again as it was read.
pub code-from_code : (c : ℕ) → code (from_code c) ≡ c
unfolding from_code code
code-from_code c = code-find_code code_table c (
  refl,
  (
    refl,
    (
      refl,
      (
        refl,
        (
          refl,
          (
            refl,
            (
              refl,
              (
                refl,
                (
                  refl,
                  (
                    refl,
                    (
                      refl,
                      (
                        refl,
                        (
                          refl,
                          (
                            refl,
                            (
                              refl,
                              (
                                refl,
                                (
                                  refl,
                                  (
                                    refl,
                                    (
                                      refl,
                                      (refl, (refl, (refl, (refl, (refl, (refl, (refl, tt))))))),
                                    ),
                                  ),
                                ),
                              ),
                            ),
                          ),
                        ),
                      ),
                    ),
                  ),
                ),
              ),
            ),
          ),
        ),
      ),
    ),
  ),
)

-- A reason that `from_code` makes: one of the named, or a code that no name has.
abbrev pub IsCanonical : RejectReason → Type 0
IsCanonical (unknown c) = from_code c ≡ unknown c
IsCanonical bad_job_id = Unit
IsCanonical bad_coinbase_id = Unit
IsCanonical bad_extranonce_size = Unit
IsCanonical bad_target = Unit
IsCanonical bad_username = Unit
IsCanonical bad_coinbaser_id = Unit
IsCanonical bad_merkle_count = Unit
IsCanonical coinbase_too_large = Unit
IsCanonical coinbase_missing = Unit
IsCanonical target_mismatch = Unit
IsCanonical hash_not_zero = Unit
IsCanonical high_hash = Unit
IsCanonical coinbase_id_mismatch = Unit
IsCanonical bad_ntime = Unit
IsCanonical bad_version = Unit
IsCanonical stale_block = Unit
IsCanonical bad_coinbase = Unit
IsCanonical bad_coinbase_outputs = Unit
IsCanonical missing_pool_tag = Unit
IsCanonical duplicate_work = Unit
IsCanonical other = Unit
IsCanonical bad_blake2b_section = Unit
IsCanonical header_field_mismatch = Unit
IsCanonical header_merkle_mismatch = Unit
IsCanonical no_split = Unit
IsCanonical bad_abw_slot = Unit

pub from_code-code : (r : RejectReason) → IsCanonical r → from_code (code r) ≡ r
unfolding from_code code
from_code-code (unknown c) h = h
from_code-code bad_job_id h = refl
from_code-code bad_coinbase_id h = refl
from_code-code bad_extranonce_size h = refl
from_code-code bad_target h = refl
from_code-code bad_username h = refl
from_code-code bad_coinbaser_id h = refl
from_code-code bad_merkle_count h = refl
from_code-code coinbase_too_large h = refl
from_code-code coinbase_missing h = refl
from_code-code target_mismatch h = refl
from_code-code hash_not_zero h = refl
from_code-code high_hash h = refl
from_code-code coinbase_id_mismatch h = refl
from_code-code bad_ntime h = refl
from_code-code bad_version h = refl
from_code-code stale_block h = refl
from_code-code bad_coinbase h = refl
from_code-code bad_coinbase_outputs h = refl
from_code-code missing_pool_tag h = refl
from_code-code duplicate_work h = refl
from_code-code other h = refl
from_code-code bad_blake2b_section h = refl
from_code-code header_field_mismatch h = refl
from_code-code header_merkle_mismatch h = refl
from_code-code no_split h = refl
from_code-code bad_abw_slot h = refl

abbrev pub HasReason : ShareVerdict → Type 0
HasReason accepted = Unit
HasReason accepted_tentatively = Unit
HasReason (rejected r) = IsCanonical r

pub verdict_of-status_of :
    (v : ShareVerdict) → HasReason v → verdict_of ((status_of v).0) ((status_of v).1) ≡ ok v
unfolding verdict_of status_of
verdict_of-status_of accepted h = refl
verdict_of-status_of accepted_tentatively h = refl
verdict_of-status_of (rejected r) h =
    ap (λ (x : RejectReason). ok (rejected x)) (from_code-code r h)
