-- ===== src/Tests/Messages.antt =====
-- The pool's and the gateway's messages at fixed values.
use ratum.Base.{ℕ, ◌≡◌, refl, arith, List, [], ◌∷◌, some, true, false, replicate, ok}
use ratum.Datum.Messages.Abw.{AssignmentNotice, CandidateRef, Reveal}
use ratum.Datum.Messages.ShareResponse.{
  ShareResponse, rejected, high_hash, code, status_of, encode_share_response, decode_share_response,
}
use ratum.Datum.Messages.ShareResponse.RoundTrip.{decode_share_response-encode_share_response}
use ratum.Datum.Messages.Config.{
  ClientConfig, config_bytes, check_fields, encode_config, decode_config,
}
use ratum.Datum.Messages.Config.RoundTrip.{decode_config-encode_config}
use ratum.Datum.Messages.Share.Submit.{PowSubmit}
use ratum.Target.{pow2_floor, floor_log2, ilog2}

abbrev hash : List ℕ
hash = replicate 32 7

abbrev notice : AssignmentNotice
notice = record { active = true; slot = 3; key_hash = hash }

abbrev candidate : CandidateRef
candidate = record { slot = 3; raw_pow_hash_le = hash }

abbrev disclosed : Reveal
disclosed = record { slot = 3; xor_key = replicate 16 9 }

abbrev answer : ShareResponse
answer = record {
  verdict = rejected high_hash;
  nonce = 77;
  target_byte = 14;
  job_id = 2;
  abw_ref = some candidate;
}

high_hash_code : (status_of (rejected high_hash)).1 ≡ 21
unfolding status_of code
high_hash_code = refl

decode_share_response-encode_share_response_example :
    decode_share_response (encode_share_response answer) ≡ ok answer
decode_share_response-encode_share_response_example =
    decode_share_response-encode_share_response answer tt (omega (arith, high_hash_code))
      (omega arith) (omega arith, refl)

abbrev configuration : ClientConfig
configuration = record {
  payout_script = 0x00 ∷ 0x14 ∷ [];
  prime_id = 5;
  coinbase_tag = 114 ∷ 97 ∷ [];
  min_difficulty = 16384;
  v3 = some (record { resume_token = replicate 40 1; bulk_framing = true; abw_disabled = false });
}

encode_config_run : encode_config configuration ≡ ok (config_bytes configuration)
unfolding encode_config check_fields pow2_floor floor_log2 ilog2
encode_config_run = refl

decode_config-encode_config_example :
    decode_config (λ bytes. true) (config_bytes configuration) ≡ ok configuration
decode_config-encode_config_example =
    decode_config-encode_config (λ bytes. true) configuration (config_bytes configuration) refl
      (omega arith) (omega arith) refl encode_config_run

abbrev share : PowSubmit
share = record {
  job_id = 1;
  coinbase_id = 2;
  is_block = false;
  subsidy_only = true;
  quickdiff = false;
  target_byte = 14;
  ntime = 1000;
  nonce = 2000;
  version = 0x20000000;
  extranonce = replicate 12 5;
  username = 98 ∷ 99 ∷ [];
  use_time_offset = true;
  job = some (record {
    prev_hash = hash;
    target_byte_index = 60;
    nbits = replicate 4 2;
    coinbaser_id = 1;
    height = 900_000;
    coinbase_value = 312_500_000;
    txn_count = 1;
    txn_total_weight = 800;
    txn_total_size = 200;
    txn_total_sigops = 4;
    merkle_branches = hash ∷ [];
  });
  coinbase = some (record { coinbase_id = 2; coinb1 = 1 ∷ 2 ∷ []; coinb2 = 3 ∷ [] });
  blake2b = record { sia_ntime = replicate 8 0; sia_nonce = replicate 8 1; time_on_wire = 1000 };
  abw_slot = some 3;
}

abbrev txns : List (List ℕ)
txns = (1 ∷ 2 ∷ []) ∷ (5 ∷ []) ∷ []
