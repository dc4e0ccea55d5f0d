-- ===== src/Tests/Frames.antt =====
-- Frame headers, the ratchet, nonces and bulk transfers at fixed values.
use ratum.Base.{
  err, ok, length, ℕ, ◌≡◌, ◌+◌, ◌*◌, ◌-◌, ◌%◌, ◌^◌, refl, arith, List, [], ◌∷◌, some, true, false,
}
use ratum.Base.Bytes.{from_le, le_bytes, length-le_bytes, le_bytes-IsByte}
use ratum.Datum.Framing.{
  FrameHeader, to_bytes, from_bytes, feedback, from_nk, initial, increment_nonce,
}
use ratum.Datum.Framing.Header.{from_bytes-to_bytes}
use ratum.Datum.Framing.Ratchet.{mask_all, unmask_all, unmask_all-mask_all}
use ratum.Datum.Framing.Counter.{increment_nonce-from_le}
use ratum.Datum.Bulk.{
  wrong_offset, received, refused, in_progress, store, Reassembler, Fragment, idle, accept,
}
use ratum.Datum.Bulk.Invariant.{IsReceiving, accept-IsReceiving, accept_err, accept_payload}
use ratum.Datum.Bulk.Payload.{fragments, answers, accept_all, accept_all-fragments}

-- The constants of the C implementation that framing.rs's tests compare with.
feedback_run : feedback 1 ≡ 0xab98b5de
unfolding feedback
feedback_run = refl

from_nk_run : (from_nk 0x9abcdef0).server_to_client ≡ 0x0cef5178
unfolding from_nk feedback
from_nk_run = refl

abbrev header : FrameHeader
header = record {
  cmd_len = 1234;
  reserved = 0;
  is_signed = true;
  is_encrypted_pubkey = false;
  is_encrypted_channel = true;
  proto_cmd = 5;
}

from_bytes-to_bytes_example : from_bytes (to_bytes header) ≡ header
from_bytes-to_bytes_example =
    from_bytes-to_bytes header
      (record { cmd_len = omega arith; reserved = omega arith; proto_cmd = omega arith })

unmask_all-mask_all_example :
    unmask_all initial ((mask_all initial (header ∷ header ∷ [])).0)
    ≡ (header ∷ header ∷ [], (mask_all initial (header ∷ header ∷ [])).1)
unmask_all-mask_all_example =
    unmask_all-mask_all (header ∷ header ∷ []) initial
      (
        record { cmd_len = omega arith; reserved = omega arith; proto_cmd = omega arith },
        (record { cmd_len = omega arith; reserved = omega arith; proto_cmd = omega arith }, tt),
      )
      (omega arith)

-- A nonce whose lowest word wraps.
abbrev nonce : List ℕ
nonce = le_bytes 24 (5 * 2 ^ 32 - 1)

increment_nonce-from_le_example : from_le (increment_nonce nonce) ≡ (from_le nonce + 1) % 2 ^ 192
increment_nonce-from_le_example =
    increment_nonce-from_le nonce (length-le_bytes 24 (5 * 2 ^ 32 - 1))
      (le_bytes-IsByte 24 (5 * 2 ^ 32 - 1))

abbrev chunks : List (List ℕ)
chunks = (1 ∷ 2 ∷ []) ∷ (3 ∷ []) ∷ []

accept_all-fragments_example :
    accept_all idle (fragments 7 3 0 chunks) ≡ (answers 7 0 (1 ∷ 2 ∷ 3 ∷ []) chunks, idle)
accept_all-fragments_example =
    accept_all-fragments 7 (1 ∷ 2 ∷ []) ((3 ∷ []) ∷ []) (omega arith) (omega arith)
      (omega arith, (omega arith, tt))

abbrev half_way : Reassembler
half_way = record { transfer = some (record { id = 7; total_size = 4; buf = 1 ∷ 2 ∷ [] }) }

abbrev next_fragment : Fragment
next_fragment = record { id = 7; total_size = 4; offset = 2; data_bytes = 3 ∷ [] }

accept-IsReceiving_example : IsReceiving ((accept half_way next_fragment).1)
accept-IsReceiving_example =
    accept-IsReceiving half_way next_fragment (omega arith, omega arith, omega arith)

abbrev out_of_order : Fragment
out_of_order = record { id = 7; total_size = 4; offset = 3; data_bytes = 3 ∷ [] }

out_of_order_run : (accept half_way out_of_order).0 ≡ err (wrong_offset 2 3)
unfolding accept received refused
out_of_order_run = refl

accept_err_example : (accept half_way out_of_order).1 ≡ half_way
accept_err_example = accept_err half_way out_of_order {e = wrong_offset 2 3} out_of_order_run

abbrev last_fragment : Fragment
last_fragment = record { id = 7; total_size = 4; offset = 2; data_bytes = 3 ∷ 4 ∷ [] }

last_fragment_run :
    (accept half_way last_fragment).0
    ≡ ok (record { id = 7; next_offset = 4 }, some (1 ∷ 2 ∷ 3 ∷ 4 ∷ []))
unfolding accept received in_progress store
last_fragment_run = refl

abbrev payload : List ℕ
payload = 1 ∷ 2 ∷ 3 ∷ 4 ∷ []

accept_payload_example : (length payload ≡ 4) × ((accept half_way last_fragment).1 ≡ idle)
accept_payload_example =
    accept_payload half_way last_fragment (record { id = 7; next_offset = 4 }) payload
      last_fragment_run
