-- ===== src/Datum/Bulk.antt =====
-- core/src/datum/bulk.rs: a payload sent as fragments at increasing offsets, each acknowledged,
-- and reassembled in order.
--
-- `accept` and `reset` return the reassembler they leave; `usize as u32` is `% 2 ^ 32`.
pub mod Invariant
pub mod Payload
use ratum.Base.{
  same_bytes, ℕ, ◌+◌, ◌*◌, ◌%◌, ◌^◌, List, [], ◌∷◌, ◌++◌, Option, none, some, Bool, true, false,
  not, ◌||◌, ◌&&◌, ◌==◌, ltb, if◌then◌else◌, length, Result, ok, err,
}
use ratum.Base.Bytes.{le_bytes}
use ratum.Reader.{
  Truncated, FromTruncated, ByteReader, Read, ◌>>=◌, ◌>>◌, pure, fail_if, run, new, arr, u32,
  is_empty,
}
use ratum.Datum.Framing.{cmd_len_bits}

-- `b"DBA\x01"` and `b"DBF\x01"`.
abbrev pub ack_marker : List ℕ
ack_marker = 0x44 ∷ 0x42 ∷ 0x41 ∷ 0x01 ∷ []

abbrev pub dbf_marker : List ℕ
dbf_marker = 0x44 ∷ 0x42 ∷ 0x46 ∷ 0x01 ∷ []

abbrev pub fragment_data_size : ℕ
fragment_data_size = 16 * 1024

abbrev pub max_transfer_size : ℕ
max_transfer_size = 2 ^ cmd_len_bits

pub data Error : Type 0 where
  bad_marker : Error
  truncated_at : Truncated → Error
  bad_chunk : ℕ → Error
  zero_id : Error
  bad_size : ℕ → Error
  wrong_transfer : (want got : ℕ) → Error
  wrong_offset : (want got : ℕ) → Error
  size_changed : (want got : ℕ) → Error
  not_at_start : Error

instance abbrev pub from_truncated : FromTruncated Error
from_truncated = record { from_truncated = truncated_at }

pub record Fragment : Type 0 where
  pub id : ℕ
  pub total_size : ℕ
  pub offset : ℕ
  pub data_bytes : List ℕ

-- `Fragment::decode`.
unfoldable pub decode_body : Read Error Fragment
decode_body = do
  marker ← arr 4 "marker"
  fail_if (not (same_bytes marker dbf_marker)) bad_marker
  i ← u32 "transfer id"
  total ← u32 "total size"
  at ← u32 "offset"
  λ c.
      if is_empty c.rest || ltb fragment_data_size (length c.rest)
      then err (bad_chunk (length c.rest))
      else ok (record { id = i; total_size = total; offset = at; data_bytes = c.rest }, c)

unfoldable pub decode : List ℕ → Result Error Fragment
decode bytes = run decode_body (new bytes)

pub record Ack : Type 0 where
  pub id : ℕ
  pub next_offset : ℕ

unfoldable pub encode_ack : Ack → List ℕ
encode_ack a = ack_marker ++ (le_bytes 4 a.id ++ le_bytes 4 a.next_offset)

pub record Transfer : Type 0 where
  pub id : ℕ
  pub total_size : ℕ
  pub buf : List ℕ

pub record Reassembler : Type 0 where
  pub transfer : Option Transfer

abbrev pub idle : Reassembler
idle = record { transfer = none }

-- `Reassembler::accept` up to the count of the bytes received: the checks against the transfer in
-- progress.
unfoldable pub received : Option Transfer → Fragment → Result Error ℕ
received none f = if not (f.offset == 0) then err not_at_start else ok 0
received (some t) f =
    if not (t.id == f.id)
    then err (wrong_transfer t.id f.id)
    else if not (t.total_size == f.total_size)
    then err (size_changed t.total_size f.total_size)
    else if not (length t.buf % 2 ^ 32 == f.offset)
    then err (wrong_offset (length t.buf % 2 ^ 32) f.offset)
    else ok (length t.buf)

-- `get_or_insert_with`.
unfoldable pub in_progress : Option Transfer → Fragment → Transfer
in_progress none f = record { id = f.id; total_size = f.total_size; buf = [] }
in_progress (some t) f = t

-- The rest of `accept`, once every check has passed: the fragment's bytes, the acknowledgement and
-- the payload when it is whole.
unfoldable pub store : Transfer → Fragment → Result Error (Ack × Option (List ℕ)) × Reassembler
store t f =
    let whole = t.buf ++ f.data_bytes in
    let ack : Ack = record { id = t.id; next_offset = length whole % 2 ^ 32 } in
    if length whole % 2 ^ 32 == t.total_size
    then (ok (ack, some whole), idle)
    else (ok (ack, none), record { transfer = some (record t { buf = whole }) })

unfoldable pub refused : Error → Reassembler → Result Error (Ack × Option (List ℕ)) × Reassembler
refused e s = (err e, s)

unfoldable pub accept : Reassembler → Fragment → Result Error (Ack × Option (List ℕ)) × Reassembler
unfolding store in_progress received refused
accept s f =
    if f.id == 0
    then refused zero_id s
    else if (f.total_size == 0) || ltb max_transfer_size f.total_size
    then refused (bad_size f.total_size) s
    else elim (received s.transfer f) [
      | err e ↦ refused e s
      | ok n ↦
          if ltb f.total_size (n + length f.data_bytes)
          then refused (bad_chunk (length f.data_bytes)) s
          else store (in_progress s.transfer f) f
    ]

unfoldable pub reset : Reassembler → Reassembler
reset s = idle
