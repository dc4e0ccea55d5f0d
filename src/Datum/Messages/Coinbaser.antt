-- ===== src/Datum/Messages/Coinbaser.antt =====
-- core/src/datum/messages/coinbaser.rs: the gateway asks what a coinbase of a given value on a
-- given tip should pay, and the pool answers with the outputs to write into it.
pub mod Request
pub mod Response
use ratum.Base.{
  ℕ, Option, none, some, zero, suc, ◌%◌, ◌+◌, ◌*◌, ◌-◌, ◌^◌, ◌<◌, ◌≤◌, min, String, List, [], ◌∷◌,
  ◌++◌, Bool, true, false, ◌||◌, ◌&&◌, not, ltb, leb, if◌then◌else◌, length, Result, ok, err,
  and_then,
}
use ratum.Base.Bytes.{le_bytes, cast}
use ratum.Reader.{
  Read, ◌>>=◌, ◌>>◌, pure, fail, fail_if, lift, run, new, cursor, u8, u32, u64, arr, take_bytes,
  at_end,
}
use ratum.Datum.Messages.{
  Error, from_truncated, open_message, read_terminator, struct_end, out_of_range, too_long,
  split_exceeds_value,
}
use ratum.Datum.Messages.ServerSubcmd
use ratum.Datum.Messages.ClientSubcmd

abbrev pub max_coinbaser_blob_len : ℕ
max_coinbaser_blob_len = 65535

abbrev pub min_coinbaser_output_script_len : ℕ
min_coinbaser_output_script_len = 2

abbrev pub max_coinbaser_output_script_len : ℕ
max_coinbaser_output_script_len = 64

abbrev pub max_coinbaser_outputs : ℕ
max_coinbaser_outputs = 1024

pub record CoinbaserRequest : Type 0 where
  pub value : ℕ
  pub prev_hash : List ℕ

-- `CoinbaserRequest::encode` and `CoinbaserRequest::decode`.
unfoldable pub encode_request : CoinbaserRequest → List ℕ
encode_request q =
    ClientSubcmd.coinbaser_request ∷ (le_bytes 8 q.value ++ (q.prev_hash ++ (struct_end ∷ [])))

unfoldable pub read_request : Read Error CoinbaserRequest
read_request = do
  open_message ClientSubcmd.coinbaser_request
  v ← u64 "value"
  h ← arr 32 "prev hash"
  read_terminator
  pure (record { value = v; prev_hash = h })

unfoldable pub decode_request : List ℕ → Result Error CoinbaserRequest
decode_request bytes = run read_request (new bytes)

pub record TxOut : Type 0 where
  pub value : ℕ
  pub script_pubkey : List ℕ

pub record CoinbaserResponse : Type 0 where
  pub value : ℕ
  pub coinbaser_id : ℕ
  pub outputs : List TxOut

-- `u64::saturating_add`.
abbrev pub saturating_add : ℕ → ℕ → ℕ
saturating_add a b = min (a + b) (2 ^ 64 - 1)

-- The size of an output's script is outside the range a response may carry.
abbrev pub script_out_of_range : ℕ → Bool
script_out_of_range len =
    ltb len min_coinbaser_output_script_len || ltb max_coinbaser_output_script_len len

-- The loop of `CoinbaserResponse::encode` over the outputs: the total so far and the blob so far.
unfoldable pub encode_outputs : ℕ → List ℕ → List TxOut → Result Error (ℕ × List ℕ)
encode_outputs total blob [] = ok (total, blob)
encode_outputs total blob (o ∷ os) =
    if script_out_of_range (length o.script_pubkey)
    then err (out_of_range "output script" (length o.script_pubkey))
    else encode_outputs (saturating_add total o.value)
        (blob ++ (le_bytes 8 o.value ++ (cast 1 (length o.script_pubkey) ∷ o.script_pubkey))) os

-- What follows the loop: the limits on the total and on the blob, and the message.
unfoldable pub encode_blob : ℕ → ℕ × List ℕ → Result Error (List ℕ)
encode_blob value (total, blob) =
    if ltb value total
    then err (split_exceeds_value total value)
    else if ltb max_coinbaser_blob_len (length blob)
    then err (too_long "coinbaser blob" (length blob))
    else ok (ServerSubcmd.coinbaser ∷ (le_bytes 8 value ++ (le_bytes 4 (length blob) ++ blob)))

unfoldable pub encode_response : CoinbaserResponse → Result Error (List ℕ)
encode_response r =
    if ltb max_coinbaser_outputs (length r.outputs)
    then err (too_long "coinbaser outputs" (length r.outputs))
    else and_then (encode_outputs 0 (r.coinbaser_id ∷ []) r.outputs) (encode_blob r.value)

-- One round of the loop of `CoinbaserResponse::decode`: an output, or `none` where the outputs
-- would pay more than the value, which ends the loop.
unfoldable pub read_output : ℕ → ℕ → Read Error (Option TxOut)
read_output value total = do
  v ← u64 "output value"
  if ltb value (saturating_add total v) then pure none else do
    len ← u8 "script length"
    fail_if (script_out_of_range len) (out_of_range "output script" len)
    script ← take_bytes len "output script"
    pure (some (record { value = v; script_pubkey = script }))

-- What a round does with its output: `total += v` (wrapping, as in a release build), the push
-- and the limit on the outputs, then the next round.
unfoldable pub after_output :
    (ℕ → List TxOut → Read Error (List TxOut))
    → ℕ
    → List TxOut
    → Option TxOut
    → Read Error (List TxOut)
after_output next total outputs none = pure outputs
after_output next total outputs (some o) =
    let outputs' = outputs ++ (o ∷ []) in
    if leb max_coinbaser_outputs (length outputs')
    then pure outputs'
    else next ((total + o.value) % 2 ^ 64) outputs'

-- The loop. A round adds an output or ends it, and it ends at `max_coinbaser_outputs` of them, so
-- that many rounds are all it makes.
unfoldable pub read_outputs : ℕ → ℕ → ℕ → List TxOut → Read Error (List TxOut)
read_outputs zero value total outputs c = ok (outputs, c)
read_outputs (suc rounds) value total outputs c =
    let round =
      (read_output value total >>= after_output (read_outputs rounds value) total outputs) c in
    if at_end c then ok (outputs, c) else round

-- `ByteReader::new(blob)` read to its end: the coinbaser id and the outputs.
unfoldable pub read_blob : ℕ → Read Error CoinbaserResponse
read_blob value = do
  id ← u8 "coinbaser id"
  os ← read_outputs max_coinbaser_outputs value 0 []
  pure (record { value = value; coinbaser_id = id; outputs = os })

unfoldable pub read_response : Read Error CoinbaserResponse
read_response = do
  open_message ServerSubcmd.coinbaser
  value ← u64 "value"
  len ← u32 "blob length"
  fail_if (ltb len 1 || ltb max_coinbaser_blob_len len) (out_of_range "coinbaser blob" len)
  blob ← take_bytes len "blob"
  lift (run (read_blob value) (new blob))

unfoldable pub decode_response : List ℕ → Result Error CoinbaserResponse
decode_response bytes = run read_response (new bytes)
