-- ===== src/Datum/Messages/Share.antt =====
-- core/src/datum/messages/share.rs: the share that a gateway submits and the sections it carries.
--
-- A username is the list of its UTF-8 bytes; `String::from_utf8_lossy` is an argument of the
-- decoder. The header that a share is rebuilt to is not modelled.
pub mod Sections
pub mod Submit
pub mod Loop
pub mod Rounds
pub mod RoundTrip
use ratum.Base.{
  same_bytes, ℕ, String, zero, suc, ◌+◌, ◌*◌, ◌%◌, ◌^◌, List, [], ◌∷◌, ◌++◌, Option, none, some,
  Bool, true, false, not, ◌==◌, ltb, leb, if◌then◌else◌, length, take, drop, replicate, Result, ok,
  err,
}
use ratum.Base.Bits.{bit_and, bit_or}
use ratum.Base.Bytes.{le_bytes, from_le, cast}
use ratum.Reader.{
  ByteReader, Read, ◌>>=◌, ◌>>◌, pure, fail, fail_if, lift, run, new, u8, u16, u32, u64, arr,
  take_bytes, advance,
}
use ratum.Datum.Messages.{
  Error, from_truncated, struct_end, open_message, bad_merkle_count, bad_blake2b_section,
  bad_extranonce_size, bad_username, unknown_section, missing_blake2b_section,
}
use ratum.Datum.Messages.ClientSubcmd

abbrev pub section_job : ℕ
section_job = 0x01

abbrev pub section_coinbase : ℕ
section_coinbase = 0x02

abbrev pub section_blake2b : ℕ
section_blake2b = 0x03

abbrev pub section_abw_slot : ℕ
section_abw_slot = 0x05

abbrev pub blake2b_algorithm : ℕ
blake2b_algorithm = 0x01

abbrev pub blake2b_time : ℕ
blake2b_time = 0x04

abbrev pub flag_is_block : ℕ
flag_is_block = 0x01

abbrev pub flag_subsidy_only : ℕ
flag_subsidy_only = 0x02

abbrev pub flag_quickdiff : ℕ
flag_quickdiff = 0x04

abbrev pub flag_blake2b : ℕ
flag_blake2b = 0x08

abbrev pub reserved_use_time_offset : ℕ
reserved_use_time_offset = 0x01

abbrev pub extranonce_size : ℕ
extranonce_size = 12

abbrev pub header_extranonce_pad : ℕ
header_extranonce_pad = 4

abbrev pub reserved_size : ℕ
reserved_size = 4

abbrev pub max_merkle_branches : ℕ
max_merkle_branches = 24

abbrev pub max_username_len : ℕ
max_username_len = 384

pub record JobSection : Type 0 where
  pub prev_hash : List ℕ
  pub target_byte_index : ℕ
  pub nbits : List ℕ
  pub coinbaser_id : ℕ
  pub height : ℕ
  pub coinbase_value : ℕ
  pub txn_count : ℕ
  pub txn_total_weight : ℕ
  pub txn_total_size : ℕ
  pub txn_total_sigops : ℕ
  pub merkle_branches : List (List ℕ)

pub record CoinbaseSection : Type 0 where
  pub coinbase_id : ℕ
  pub coinb1 : List ℕ
  pub coinb2 : List ℕ

pub record Blake2bSection : Type 0 where
  pub sia_ntime : List ℕ
  pub sia_nonce : List ℕ
  pub time_on_wire : ℕ

unfoldable pub assemble : CoinbaseSection → List ℕ → List ℕ
assemble c extranonce = c.coinb1 ++ (extranonce ++ c.coinb2)

-- `*tx.get_mut(i)? = b`.
unfoldable pub set_byte : List ℕ → ℕ → ℕ → Option (List ℕ)
set_byte [] i b = none
set_byte (x ∷ xs) zero b = some (b ∷ xs)
set_byte (x ∷ xs) (suc i) b = elim (set_byte xs i b) [ none ↦ none | some ys ↦ some (x ∷ ys) ]

unfoldable pub coinbase_tx : JobSection → CoinbaseSection → ℕ → Option (List ℕ)
coinbase_tx j cb target_byte =
    set_byte (assemble cb (replicate extranonce_size 0)) j.target_byte_index target_byte

unfoldable pub header_extranonce : List ℕ → List ℕ
header_extranonce extranonce = replicate header_extranonce_pad 0 ++ extranonce

unfoldable pub share_extranonce : List ℕ → Option (List ℕ)
share_extranonce field =
    if same_bytes (take header_extranonce_pad field) (replicate header_extranonce_pad 0)
    then some (drop header_extranonce_pad field)
    else none

unfoldable pub sia_halves : List ℕ → ℕ × ℕ
sia_halves field = (from_le (take 4 field), from_le (drop 4 field))

unfoldable pub nonce_fields : Blake2bSection → ℕ × ℕ
nonce_fields b = sia_halves b.sia_nonce

unfoldable pub time_fields : Blake2bSection → ℕ × ℕ
time_fields b = sia_halves b.sia_ntime

-- The loop over the merkle branches.
unfoldable pub read_branches : ℕ → Read Error (List (List ℕ))
read_branches zero = pure []
read_branches (suc n) = do b ← arr 32 "merkle branch"; bs ← read_branches n; pure (b ∷ bs)

unfoldable pub decode_job_section : Read Error JobSection
decode_job_section = do
  prev ← arr 32 "prev hash"
  index ← u16 "target byte index"
  bits ← arr 4 "nbits"
  id ← u8 "coinbaser id"
  at ← u32 "height"
  value ← u64 "coinbase value"
  count ← u32 "txn count"
  weight ← u32 "txn weight"
  size ← u32 "txn size"
  sigops ← u32 "txn sigops"
  n ← u8 "merkle count"
  fail_if (ltb max_merkle_branches n) (bad_merkle_count n)
  branches ← read_branches n
  pure (record {
    prev_hash = prev;
    target_byte_index = index;
    nbits = bits;
    coinbaser_id = id;
    height = at;
    coinbase_value = value;
    txn_count = count;
    txn_total_weight = weight;
    txn_total_size = size;
    txn_total_sigops = sigops;
    merkle_branches = branches;
  })

abbrev pub branch_bytes : List (List ℕ) → List ℕ
branch_bytes [] = []
branch_bytes (b ∷ bs) = b ++ branch_bytes bs

-- The section's bytes, then `out`, what is written after them.
unfoldable pub encode_job_section : JobSection → List ℕ → List ℕ
encode_job_section j out =
    section_job
    ∷ (j.prev_hash
        ++ (le_bytes 2 j.target_byte_index
            ++ (j.nbits
                ++ (j.coinbaser_id
                    ∷ (le_bytes 4 j.height
                        ++ (le_bytes 8 j.coinbase_value
                            ++ (le_bytes 4 j.txn_count
                                ++ (le_bytes 4 j.txn_total_weight
                                    ++ (le_bytes 4 j.txn_total_size
                                        ++ (le_bytes 4 j.txn_total_sigops
                                            ++ (cast 1 (length j.merkle_branches)
                                                ∷ (branch_bytes j.merkle_branches ++ out))))))))))))

unfoldable pub decode_coinbase_section : Read Error CoinbaseSection
decode_coinbase_section = do
  id ← u8 "coinbase section id"
  len1 ← u16 "coinb1 len"
  len2 ← u16 "coinb2 len"
  c1 ← take_bytes len1 "coinb1"
  c2 ← take_bytes len2 "coinb2"
  pure (record { coinbase_id = id; coinb1 = c1; coinb2 = c2 })

unfoldable pub encode_coinbase_section : CoinbaseSection → List ℕ → List ℕ
encode_coinbase_section c out =
    section_coinbase
    ∷ c.coinbase_id
    ∷ (le_bytes 2 (cast 2 (length c.coinb1))
        ++ (le_bytes 2 (cast 2 (length c.coinb2)) ++ (c.coinb1 ++ (c.coinb2 ++ out))))

unfoldable pub decode_blake2b_section : Read Error Blake2bSection
decode_blake2b_section = do
  algorithm ← u8 "algorithm"
  fail_if (not (algorithm == blake2b_algorithm)) bad_blake2b_section
  ntime ← arr 8 "sia ntime"
  nonce ← arr 8 "sia nonce"
  marker ← u8 "time marker"
  fail_if (not (marker == blake2b_time)) bad_blake2b_section
  time ← u32 "time on wire"
  pure (record { sia_ntime = ntime; sia_nonce = nonce; time_on_wire = time })

unfoldable pub encode_blake2b_section : Blake2bSection → List ℕ → List ℕ
encode_blake2b_section b out =
    section_blake2b
    ∷ blake2b_algorithm
    ∷ (b.sia_ntime ++ (b.sia_nonce ++ (blake2b_time ∷ (le_bytes 4 b.time_on_wire ++ out))))
