-- ===== src/Bitcoin/CompactSize.antt =====
-- core/src/bitcoin.rs, the CompactSize of a count and the serialization of a block, with the errors
-- of core/src/bitcoin/transaction.rs that decoding a count answers.
pub mod RoundTrip
use ratum.Base.{
  ℕ, ◌+◌, ◌-◌, ◌%◌, ◌^◌, String, List, [], ◌∷◌, ◌++◌, Bool, leb, ltb, ◌==◌, if◌then◌else◌, length,
}
use ratum.Base.Bytes.{le_bytes, cast}
use ratum.Reader.{Truncated, FromTruncated, Read, ◌>>=◌, ◌>>◌, pure, fail_if, u8, u16, u32, u64}

pub data TxError : Type 0 where
  truncated : Truncated → TxError
  bad_compact_size : TxError
  not_coinbase : TxError
  input_not_null : TxError
  length_overflow : String → TxError
  trailing_bytes : ℕ → TxError
  no_inputs : TxError

instance abbrev pub from_truncated : FromTruncated TxError
from_truncated = record { from_truncated = λ t. truncated t }

abbrev pub compact_size_u16_tag : ℕ
compact_size_u16_tag = 0xfd

abbrev pub compact_size_u32_tag : ℕ
compact_size_u32_tag = 0xfe

abbrev pub compact_size_u64_tag : ℕ
compact_size_u64_tag = 0xff

abbrev pub compact_size_max_1 : ℕ
compact_size_max_1 = compact_size_u16_tag - 1

abbrev pub compact_size_max_2 : ℕ
compact_size_max_2 = 2 ^ 16 - 1

abbrev pub compact_size_max_4 : ℕ
compact_size_max_4 = 2 ^ 32 - 1

unfoldable pub encode_compact_size : ℕ → List ℕ
encode_compact_size n =
    if leb n compact_size_max_1
    then le_bytes 1 n
    else if leb n compact_size_max_2
    then compact_size_u16_tag ∷ le_bytes 2 n
    else if leb n compact_size_max_4
    then compact_size_u32_tag ∷ le_bytes 4 n
    else compact_size_u64_tag ∷ le_bytes 8 n

-- A count that a shorter form holds is refused.
unfoldable pub not_under : ℕ → ℕ → Read TxError ℕ
not_under minimum v = do fail_if (ltb v minimum) bad_compact_size; pure v

unfoldable pub after_first : ℕ → Read TxError ℕ
after_first first =
    if first == compact_size_u16_tag
    then u16 "compact size" >>= not_under (compact_size_max_1 + 1)
    else if first == compact_size_u32_tag
    then u32 "compact size" >>= not_under (compact_size_max_2 + 1)
    else if first == compact_size_u64_tag
    then u64 "compact size" >>= not_under (compact_size_max_4 + 1)
    else not_under 0 first

unfoldable pub decode_compact_size : Read TxError ℕ
decode_compact_size = u8 "compact size" >>= after_first

unfoldable pub concat : List (List ℕ) → List ℕ
concat [] = []
concat (tx ∷ txs) = tx ++ concat txs

-- `serialize_block`, whose count is a u64.
unfoldable pub serialize_block : List ℕ → List ℕ → List (List ℕ) → List ℕ
serialize_block header coinbase other_txns =
    header ++ encode_compact_size (cast 8 (length other_txns) + 1) ++ coinbase ++ concat other_txns
