-- ===== src/Datum/Messages/Share/Submit.antt =====
-- `SharePrefix` and `PowSubmit` of core/src/datum/messages/share.rs.
--
-- The loop over the sections runs on a count of rounds: a round reads at least the section's
-- marker, so a round for every byte left is enough, and past them the marker is missing.
use ratum.Base.{
  ℕ, zero, suc, ◌+◌, ◌%◌, ◌^◌, List, [], ◌∷◌, ◌++◌, Option, none, some, Bool, not, ◌==◌,
  if◌then◌else◌, length, take, head_or, Result, ok, err,
}
use ratum.Base.Bits.{bit_and, bit_or}
use ratum.Base.Bytes.{le_bytes}
use ratum.Reader.{
  Read, ◌>>=◌, ◌>>◌, pure, fail, fail_if, run, new, u8, u32, arr, take_bytes, advance,
}
use ratum.Target.{difficulty_for_exponent}
use ratum.Datum.Messages.{
  Error, from_truncated, struct_end, open_message, bad_extranonce_size, bad_username,
  unknown_section, missing_blake2b_section,
}
use ratum.Datum.Messages.ClientSubcmd
use ratum.Datum.Messages.Share.{
  JobSection, CoinbaseSection, Blake2bSection, decode_job_section, decode_coinbase_section,
  decode_blake2b_section, encode_job_section, encode_coinbase_section, encode_blake2b_section,
  section_job, section_coinbase, section_blake2b, section_abw_slot, flag_is_block,
  flag_subsidy_only, flag_quickdiff, flag_blake2b, reserved_use_time_offset, extranonce_size,
  reserved_size, max_username_len, time_fields,
}

pub record SharePrefix : Type 0 where
  pub job_id : ℕ
  pub coinbase_id : ℕ
  pub flags : ℕ
  pub target_byte : ℕ
  pub ntime : ℕ
  pub nonce : ℕ

-- `SharePrefix::read`.
unfoldable pub read_prefix : Read Error SharePrefix
read_prefix = do
  open_message ClientSubcmd.submit_pow
  j ← u8 "job id"
  c ← u8 "coinbase id"
  f ← u8 "flags"
  t ← u8 "target byte"
  time ← u32 "ntime"
  n ← u32 "nonce"
  pure (record { job_id = j; coinbase_id = c; flags = f; target_byte = t; ntime = time; nonce = n })

unfoldable pub prefix : List ℕ → Option SharePrefix
prefix bytes = elim (run read_prefix (new bytes)) [ ok p ↦ some p | err e ↦ none ]

pub record PowSubmit : Type 0 where
  pub job_id : ℕ
  pub coinbase_id : ℕ
  pub is_block : Bool
  pub subsidy_only : Bool
  pub quickdiff : Bool
  pub target_byte : ℕ
  pub ntime : ℕ
  pub nonce : ℕ
  pub version : ℕ
  pub extranonce : List ℕ
  pub username : List ℕ
  pub use_time_offset : Bool
  pub job : Option JobSection
  pub coinbase : Option CoinbaseSection
  pub blake2b : Blake2bSection
  pub abw_slot : Option ℕ

unfoldable pub difficulty : PowSubmit → ℕ
difficulty s = difficulty_for_exponent s.target_byte

unfoldable pub block_time : PowSubmit → ℕ
block_time s =
    if s.use_time_offset
    then (s.blake2b.time_on_wire + (time_fields s.blake2b).0) % 2 ^ 32
    else s.blake2b.time_on_wire

abbrev one_later : Option ℕ → Option ℕ
one_later none = none
one_later (some i) = some (suc i)

-- `.iter().take(n).position(|&b| b == 0)`.
unfoldable pub nul_within : ℕ → List ℕ → Option ℕ
nul_within zero bs = none
nul_within (suc n) [] = none
nul_within (suc n) (b ∷ bs) =
    let rest = nul_within n bs in if b == 0 then some 0 else one_later rest

-- The username up to its NUL, past which the reader is advanced.
unfoldable pub read_username : (List ℕ → List ℕ) → Read Error (List ℕ)
read_username lossy c = elim (nul_within (max_username_len + 1) c.rest) [
  | none ↦ err bad_username
  | some nul ↦ (advance (nul + 1) "username" >>= λ _. pure (lossy (take nul c.rest))) c
]

-- The four optional parts that the loop over the sections fills.
pub record Parts : Type 0 where
  pub job : Option JobSection
  pub coinbase : Option CoinbaseSection
  pub blake2b : Option Blake2bSection
  pub abw_slot : Option ℕ

abbrev pub no_parts : Parts
no_parts = record { job = none; coinbase = none; blake2b = none; abw_slot = none }

-- One section, after its marker; the marker is not `struct_end`.
unfoldable pub read_section : Parts → ℕ → Read Error Parts
read_section p marker =
    if marker == section_job
    then (decode_job_section >>= λ j. pure (record p { job = some j }))
    else if marker == section_coinbase
    then (decode_coinbase_section >>= λ c. pure (record p { coinbase = some c }))
    else if marker == section_abw_slot
    then (u8 "abw slot" >>= λ s. pure (record p { abw_slot = some s }))
    else if marker == section_blake2b
    then (decode_blake2b_section >>= λ b. pure (record p { blake2b = some b }))
    else fail (unknown_section marker)

unfoldable pub read_sections : ℕ → Parts → Read Error Parts
read_sections zero p = u8 "section marker" >>= λ marker. pure p
read_sections (suc rounds) p = do
  marker ← u8 "section marker"
  if marker == struct_end then pure p else (read_section p marker >>= read_sections rounds)

abbrev pub all_sections : Read Error Parts
all_sections c = read_sections (length c.rest) no_parts c

unfoldable pub require : Option Blake2bSection → Read Error Blake2bSection
require none = fail missing_blake2b_section
require (some b) = pure b

abbrev pub is_flag : ℕ → ℕ → Bool
is_flag flags flag = not (bit_and flags flag == 0)

unfoldable pub read_submit : (List ℕ → List ℕ) → Read Error PowSubmit
read_submit lossy = do
  p ← read_prefix
  v ← u32 "version"
  en_size ← u8 "extranonce size"
  fail_if (not (en_size == extranonce_size)) (bad_extranonce_size en_size)
  extra ← arr extranonce_size "extranonce"
  name ← read_username lossy
  reserved ← take_bytes reserved_size "reserved"
  parts ← all_sections
  b ← require parts.blake2b
  pure (record {
    job_id = p.job_id;
    coinbase_id = p.coinbase_id;
    is_block = is_flag p.flags flag_is_block;
    subsidy_only = is_flag p.flags flag_subsidy_only;
    quickdiff = is_flag p.flags flag_quickdiff;
    target_byte = p.target_byte;
    ntime = p.ntime;
    nonce = p.nonce;
    version = v;
    extranonce = extra;
    username = name;
    use_time_offset = is_flag (head_or 0 reserved) reserved_use_time_offset;
    job = parts.job;
    coinbase = parts.coinbase;
    blake2b = b;
    abw_slot = parts.abw_slot;
  })

unfoldable pub decode_submit : (List ℕ → List ℕ) → List ℕ → Result Error PowSubmit
decode_submit lossy bytes = run (read_submit lossy) (new bytes)

abbrev flag : Bool → ℕ → ℕ
flag set b = if set then b else 0

unfoldable pub flag_byte : (is_block subsidy_only quickdiff : Bool) → ℕ
flag_byte is_block subsidy_only quickdiff =
    bit_or
      (bit_or (bit_or (flag is_block flag_is_block) (flag subsidy_only flag_subsidy_only))
        (flag quickdiff flag_quickdiff))
      flag_blake2b

-- `reserved` of `encode`.
unfoldable pub reserved_bytes : Bool → List ℕ
reserved_bytes use_time_offset = flag use_time_offset reserved_use_time_offset ∷ 0 ∷ 0 ∷ 0 ∷ []

unfoldable pub encode_slot : Option ℕ → List ℕ → List ℕ
encode_slot none out = out
encode_slot (some slot) out = section_abw_slot ∷ slot ∷ out

unfoldable pub encode_job : Option JobSection → List ℕ → List ℕ
encode_job none out = out
encode_job (some j) out = encode_job_section j out

unfoldable pub encode_coinbase : Option CoinbaseSection → List ℕ → List ℕ
encode_coinbase none out = out
encode_coinbase (some c) out = encode_coinbase_section c out

-- The sections in the order they are written.
unfoldable pub section_bytes : PowSubmit → List ℕ
section_bytes s =
    encode_blake2b_section s.blake2b
      (encode_slot s.abw_slot (encode_job s.job (encode_coinbase s.coinbase (struct_end ∷ []))))

unfoldable pub encode_submit : PowSubmit → List ℕ
encode_submit s =
    ClientSubcmd.submit_pow
    ∷ s.job_id
    ∷ s.coinbase_id
    ∷ flag_byte s.is_block s.subsidy_only s.quickdiff
    ∷ s.target_byte
    ∷ (le_bytes 4 s.ntime
        ++ (le_bytes 4 s.nonce
            ++ (le_bytes 4 s.version
                ++ (extranonce_size
                    ∷ (s.extranonce
                        ++ (s.username
                            ++ (0 ∷ (reserved_bytes s.use_time_offset ++ section_bytes s))))))))
