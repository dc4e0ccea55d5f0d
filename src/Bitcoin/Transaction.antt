-- ===== src/Bitcoin/Transaction.antt =====
-- core/src/bitcoin/transaction.rs: the id of a transaction over its serialization without
-- witnesses, and the coinbase that the pool rebuilds a share from.
--
-- A count of 64 bits is a `usize`. SHA-256 is a parameter. A loop over a count is recursion on it.
pub mod Parts
pub mod Txid
pub mod Coinbase
use ratum.Base.{
  String, ℕ, zero, suc, ◌+◌, ◌-◌, ◌*◌, ◌^◌, min, List, [], ◌∷◌, ◌++◌, Option, none, some, Bool,
  true, false, ◌&&◌, ◌||◌, not, ltb, ◌==◌, if◌then◌else◌, length, take, drop, replicate, Result, ok,
  err, same_bytes,
}
use ratum.Base.Bytes.{le_bytes}
use ratum.Reader.{
  ByteReader, Read, ◌>>=◌, ◌>>◌, pure, fail_if, pos, at_end, peek2, new, run, take_bytes, advance,
  u32, u64,
}
use ratum.Bitcoin.Merkle.{Hash, sha256d}
use ratum.Bitcoin.CompactSize.{
  TxError, from_truncated, bad_compact_size, not_coinbase, input_not_null, length_overflow,
  trailing_bytes, no_inputs, encode_compact_size, decode_compact_size,
}

abbrev pub hash_size : ℕ
hash_size = 32

abbrev pub outpoint_size : ℕ
outpoint_size = hash_size + 4

abbrev pub sequence_size : ℕ
sequence_size = 4

abbrev pub value_size : ℕ
value_size = 8

abbrev pub min_output_size : ℕ
min_output_size = value_size + 1

-- `c.pos()` and `c.rest().len()` inside a chain of reads.
abbrev pub position : Read TxError ℕ
position c = ok (pos c, c)

abbrev pub left : Read TxError ℕ
left c = ok (length c.rest, c)

unfoldable pub is_marker : Option (ℕ × ℕ) → Bool
is_marker none = false
is_marker (some (a, b)) = (a == 0) && (b == 1)

unfoldable pub has_marker : Read TxError Bool
has_marker c = ok (is_marker (peek2 c), c)

unfoldable pub skip_marker : Bool → Read TxError (Unit {0})
skip_marker true = advance 2 "segwit marker and flag"
skip_marker false = pure tt

unfoldable pub read_version_and_marker : Read TxError (ℕ × Bool)
read_version_and_marker = do
  version ← u32 "version"
  has_witness ← has_marker
  skip_marker has_witness
  pure (version, has_witness)

-- A length and as many bytes.
unfoldable pub skip_field : String → Read TxError (Unit {0})
skip_field what = decode_compact_size >>= λ len. advance len what

unfoldable pub skip_items : ℕ → Read TxError (Unit {0})
skip_items zero = pure tt
skip_items (suc items) = do skip_field "witness item"; skip_items items

unfoldable pub skip_witnesses : ℕ → Read TxError (Unit {0})
skip_witnesses zero = pure tt
skip_witnesses (suc inputs) = do
  items ← decode_compact_size
  skip_items items
  skip_witnesses inputs

unfoldable pub witnesses_if : Bool → ℕ → Read TxError (Unit {0})
witnesses_if true inputs = skip_witnesses inputs
witnesses_if false inputs = pure tt

unfoldable pub end_of_input : Read TxError (Unit {0})
end_of_input c = if not (at_end c) then err (trailing_bytes (length c.full - pos c)) else ok (tt, c)

unfoldable pub read_lock_time : Read TxError ℕ
read_lock_time = do lock_time ← u32 "lock time"; end_of_input; pure lock_time

unfoldable pub skip_inputs : ℕ → Read TxError (Unit {0})
skip_inputs zero = pure tt
skip_inputs (suc inputs) = do
  advance outpoint_size "outpoint"
  skip_field "scriptSig"
  advance sequence_size "sequence"
  skip_inputs inputs

unfoldable pub skip_outputs : ℕ → Read TxError (Unit {0})
skip_outputs zero = pure tt
skip_outputs (suc outputs) = do
  advance value_size "value"
  skip_field "scriptPubKey"
  skip_outputs outputs

-- `&tx[start..end]`.
abbrev pub slice : List ℕ → ℕ → ℕ → List ℕ
slice tx start end_ = take (end_ - start) (drop start tx)

-- The inputs and outputs of a transaction, whose number of inputs is answered.
unfoldable pub skip_body : Read TxError ℕ
skip_body = do
  inputs ← decode_compact_size
  fail_if (inputs == 0) no_inputs
  skip_inputs inputs
  outputs ← decode_compact_size
  skip_outputs outputs
  pure inputs

-- What `txid` hashes: the version, the body and the lock time.
unfoldable pub read_stripped : List ℕ → Read TxError (List ℕ)
read_stripped tx = do
  head ← read_version_and_marker
  body_start ← position
  inputs ← skip_body
  body_end ← position
  witnesses_if (head.1) inputs
  lock_time ← read_lock_time
  pure (le_bytes 4 (head.0) ++ slice tx body_start body_end ++ le_bytes 4 lock_time)

unfoldable pub stripped : List ℕ → Result TxError (List ℕ)
stripped tx = run (read_stripped tx) (new tx)

unfoldable pub txid : (List ℕ → Hash) → List ℕ → Result TxError Hash
txid sha256 tx = elim (stripped tx) [ ok bytes ↦ ok (sha256d sha256 bytes) | err e ↦ err e ]

pub record TxOut : Type 0 where
  pub value : ℕ
  pub script_pubkey : List ℕ

pub record CoinbaseTx : Type 0 where
  pub version : ℕ
  pub script_sig_offset : ℕ
  pub script_sig : List ℕ
  pub sequence : ℕ
  pub outputs : List TxOut
  pub lock_time : ℕ
  pub has_witness : Bool

-- `prevout[..HASH_SIZE] != [0; HASH_SIZE] || prevout[HASH_SIZE..] != NULL_OUTPOINT_INDEX`.
unfoldable pub not_null : List ℕ → Bool
not_null prevout =
    not (same_bytes (take hash_size prevout) (replicate hash_size 0))
    || not (same_bytes (drop hash_size prevout) (replicate 4 255))

unfoldable pub read_field : String → Read TxError (List ℕ)
read_field what = decode_compact_size >>= λ len. take_bytes len what

unfoldable pub read_outputs : ℕ → Read TxError (List TxOut)
read_outputs zero = pure []
read_outputs (suc n) = do
  value ← u64 "value"
  script ← read_field "scriptPubKey"
  rest ← read_outputs n
  pure (record { value = value; script_pubkey = script } ∷ rest)

unfoldable pub read_coinbase : Read TxError CoinbaseTx
read_coinbase = do
  head ← read_version_and_marker
  inputs ← decode_compact_size
  fail_if (not (inputs == 1)) not_coinbase
  prevout ← take_bytes outpoint_size "outpoint"
  fail_if (not_null prevout) input_not_null
  script_len ← decode_compact_size
  script_sig_offset ← position
  script_sig ← take_bytes script_len "scriptSig"
  sequence ← u32 "sequence"
  n_out ← decode_compact_size
  room ← left
  fail_if (ltb room (min (n_out * min_output_size) (2 ^ 64 - 1))) (length_overflow "output count")
  outputs ← read_outputs n_out
  witnesses_if (head.1) 1
  lock_time ← read_lock_time
  pure (record {
    version = head.0;
    script_sig_offset = script_sig_offset;
    script_sig = script_sig;
    sequence = sequence;
    outputs = outputs;
    lock_time = lock_time;
    has_witness = head.1;
  })

unfoldable pub parse_coinbase : List ℕ → Result TxError CoinbaseTx
parse_coinbase tx = run read_coinbase (new tx)

unfoldable pub encode_output : ℕ → List ℕ → List ℕ
encode_output value script = le_bytes 8 value ++ encode_compact_size (length script) ++ script
