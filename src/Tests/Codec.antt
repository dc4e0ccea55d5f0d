-- ===== src/Tests/Codec.antt =====
-- Messages of the protocol at fixed values.
use ratum.Base.{replicate, ℕ, ◌≡◌, refl, arith, List, [], ◌∷◌, ◌++◌, ok}
use ratum.Base.Bytes.{le_bytes}
use ratum.Datum.Messages.Coinbaser.{
  CoinbaserRequest, CoinbaserResponse, encode_response, decode_response, encode_outputs,
  encode_blob,
}
use ratum.Datum.Messages.Coinbaser.Response.{decode_response-encode_response}

abbrev hash : List ℕ
hash = replicate 32 7

abbrev request : CoinbaserRequest
request = record { value = 312_500_000; prev_hash = hash }

abbrev response : CoinbaserResponse
response = record {
  value = 1000;
  coinbaser_id = 3;
  outputs =
      record { value = 600; script_pubkey = 0x51 ∷ 0x52 ∷ [] }
      ∷ record { value = 400; script_pubkey = 0x51 ∷ 0x52 ∷ 0x53 ∷ [] }
      ∷ [];
}

abbrev response_bytes : List ℕ
response_bytes =
    0x11 ∷ 0xe8 ∷ 3 ∷ 0 ∷ 0 ∷ 0 ∷ 0 ∷ 0 ∷ 0 ∷ 24 ∷ 0 ∷ 0 ∷ 0 ∷ 3 ∷ 0x58 ∷ 2 ∷ 0 ∷ 0 ∷ 0 ∷ 0 ∷ 0 ∷ 0
    ∷ 2 ∷ 0x51 ∷ 0x52 ∷ 0x90 ∷ 1 ∷ 0 ∷ 0 ∷ 0 ∷ 0 ∷ 0 ∷ 0 ∷ 3 ∷ 0x51 ∷ 0x52 ∷ 0x53 ∷ []

encode_response_run : encode_response response ≡ ok response_bytes
unfolding encode_response encode_outputs encode_blob le_bytes
encode_response_run = refl

decode_response-encode_response_example : decode_response (response_bytes ++ (9 ∷ [])) ≡ ok response
decode_response-encode_response_example =
    decode_response-encode_response response response_bytes (9 ∷ [])
      (omega arith, (omega arith, tt)) (omega arith) encode_response_run
