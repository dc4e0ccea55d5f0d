-- ===== src/Datum/Messages/Config.antt =====
-- core/src/datum/messages/config.rs: the pool's configuration, in its version 1 and version 3 forms.
--
-- A `String` is the list of its UTF-8 bytes. `String::from_utf8` accepts the bytes that
-- `is_utf8`, an argument of the decoder, accepts. `is_power_of_two` is a value above zero that
-- rounding down to a power of two leaves alone.
pub mod RoundTrip
use ratum.Base.{
  same_bytes, ℕ, String, ◌^◌, List, [], ◌∷◌, ◌++◌, Option, none, some, Bool, true, false, not, ◌&&◌,
  ◌||◌, any, ◌==◌, ltb, leb, if◌then◌else◌, length, take, Result, ok, err, and_then,
}
use ratum.Base.Bits.{bit_and}
use ratum.Base.Bytes.{le_bytes, cast}
use ratum.Reader.{
  ByteReader, Read, ◌>>=◌, ◌>>◌, pure, fail, fail_if, lift, run, new, u8, u32, u64, arr, take_bytes,
}
use ratum.Target.{pow2_floor}
use ratum.Datum.Bulk.{dbf_marker}
use ratum.Datum.Messages.{
  Error, from_truncated, struct_end, open_message, read_terminator, too_long, malformed,
  min_difficulty_not_power_of_two, prime_id_too_wide, bad_version, bad_flags,
}
use ratum.Datum.Messages.ServerSubcmd

abbrev pub config_version : ℕ
config_version = 1

abbrev pub config_version_v3 : ℕ
config_version_v3 = 3

abbrev pub config_flag_abw_disabled : ℕ
config_flag_abw_disabled = 0x01

abbrev pub resume_token_len : ℕ
resume_token_len = 40

abbrev pub max_payout_script_len : ℕ
max_payout_script_len = 83

abbrev pub max_coinbase_tag_len : ℕ
max_coinbase_tag_len = 81

unfoldable pub push_counted : List ℕ → List ℕ
push_counted bytes = cast 1 (length bytes) ∷ bytes

unfoldable pub take_counted : String → ℕ → Read Error (List ℕ)
take_counted what most = do
  len ← u8 what
  fail_if (ltb most len) (too_long what len)
  take_bytes len what

-- The bytes before the first NUL.
unfoldable pub before_nul : List ℕ → List ℕ
before_nul [] = []
before_nul (b ∷ bs) = let rest = before_nul bs in if b == 0 then [] else b ∷ rest

unfoldable pub coinbase_tag_of : (List ℕ → Bool) → List ℕ → Result Error (List ℕ)
coinbase_tag_of is_utf8 field =
    if is_utf8 (before_nul field)
    then ok (before_nul field)
    else err (malformed "coinbase tag is not UTF-8")

pub record V3Config : Type 0 where
  pub resume_token : List ℕ
  pub bulk_framing : Bool
  pub abw_disabled : Bool

pub record ClientConfig : Type 0 where
  pub payout_script : List ℕ
  pub prime_id : ℕ
  pub coinbase_tag : List ℕ
  pub min_difficulty : ℕ
  pub v3 : Option V3Config

abbrev pub is_power_of_two : ℕ → Bool
is_power_of_two v = not (v == 0) && (pow2_floor v == v)

abbrev pub is_none : {A : Type 0} → Option A → Bool
is_none none = true
is_none (some a) = false

unfoldable pub check_fields : ClientConfig → Result Error (Unit {0})
check_fields c =
    if ltb max_payout_script_len (length c.payout_script)
    then err (too_long "payout script" (length c.payout_script))
    else if ltb max_coinbase_tag_len (length c.coinbase_tag)
    then err (too_long "coinbase tag" (length c.coinbase_tag))
    else if any (λ b. b == 0) c.coinbase_tag
    then err
        (malformed "coinbase tag holds a NUL byte, which a C gateway reads as the end of the tag")
    else if not (is_power_of_two c.min_difficulty)
    then err (min_difficulty_not_power_of_two c.min_difficulty)
    else if is_none c.v3 && leb (2 ^ 32) c.prime_id
    then err (prime_id_too_wide c.prime_id)
    else ok tt

-- What follows the payout script: the prime id and the resume token of the version.
unfoldable pub ids_bytes : ClientConfig → List ℕ
ids_bytes c = elim c.v3 [
  | none ↦ le_bytes 4 c.prime_id
  | some v ↦ le_bytes 8 c.prime_id ++ v.resume_token
]

unfoldable pub flag_bytes : Option V3Config → ℕ
flag_bytes none = 0
flag_bytes (some v) = if v.abw_disabled then config_flag_abw_disabled else 0

unfoldable pub marker_bytes : Option V3Config → List ℕ
marker_bytes none = []
marker_bytes (some v) = if v.bulk_framing then dbf_marker else []

abbrev pub version_of : Option V3Config → ℕ
version_of none = config_version
version_of (some v) = config_version_v3

unfoldable pub config_bytes : ClientConfig → List ℕ
config_bytes c =
    ServerSubcmd.config
    ∷ version_of c.v3
    ∷ (push_counted c.payout_script
        ++ (ids_bytes c
            ++ (push_counted c.coinbase_tag
                ++ (le_bytes 8 c.min_difficulty
                    ++ (flag_bytes c.v3 ∷ struct_end ∷ marker_bytes c.v3)))))

unfoldable pub encode_config : ClientConfig → Result Error (List ℕ)
encode_config c = and_then (check_fields c) (λ _. ok (config_bytes c))

-- The match on the version.
unfoldable pub read_ids : ℕ → Read Error (ℕ × Option (List ℕ))
read_ids version =
    if version == config_version
    then (u32 "prime id" >>= λ id. pure (id, none))
    else if version == config_version_v3
    then (u64 "prime id" >>= λ id.
        arr resume_token_len "resume token" >>= λ token. pure (id, some token))
    else fail (bad_version version)

-- `flags & !known_flags != 0`, where a byte's `!known` keeps the bits above the known ones.
unfoldable pub has_unknown_flags : ℕ → Option (List ℕ) → Bool
has_unknown_flags flags none = not (bit_and flags 0xff == 0)
has_unknown_flags flags (some token) = not (bit_and flags 0xfe == 0)

unfoldable pub v3_of : Option (List ℕ) → ℕ → List ℕ → Option V3Config
v3_of none flags rest = none
v3_of (some token) flags rest = some (record {
  resume_token = token;
  bulk_framing = same_bytes (take 4 rest) dbf_marker;
  abw_disabled = not (bit_and flags config_flag_abw_disabled == 0);
})

unfoldable pub read_config : (List ℕ → Bool) → Read Error ClientConfig
read_config is_utf8 = do
  open_message ServerSubcmd.config
  version ← u8 "version"
  script ← take_counted "payout script" max_payout_script_len
  ids ← read_ids version
  field ← take_counted "coinbase tag" max_coinbase_tag_len
  tag ← lift (coinbase_tag_of is_utf8 field)
  difficulty ← u64 "min difficulty"
  flags ← u8 "flags"
  read_terminator
  fail_if (has_unknown_flags flags ids.1) (bad_flags flags)
  λ c. ok (
    record {
      payout_script = script;
      prime_id = ids.0;
      coinbase_tag = tag;
      min_difficulty = difficulty;
      v3 = v3_of ids.1 flags c.rest;
    },
    c,
  )

unfoldable pub decode_config : (List ℕ → Bool) → List ℕ → Result Error ClientConfig
decode_config is_utf8 bytes = run (read_config is_utf8) (new bytes)
