-- ===== src/Header.antt =====
-- core/src/header.rs: the version 2 block header, its wire form, and the stages that hash it.
--
-- A signed 32-bit field is its two's complement. `x | 2^31` and `x & !2^31` of 32 bits, and the
-- masks of the flags, are written as arithmetic. SHA-256, BLAKE2b and the bytes of a tag are
-- parameters; an array is a list whose length is a hypothesis where it matters.
pub mod RoundTrip
pub mod Layout
use ratum.Base.{
  ℕ, zero, suc, ◌+◌, ◌-◌, ◌*◌, ◌/◌, ◌%◌, ◌^◌, String, List, [], ◌∷◌, ◌++◌, Option, none, some, Bool,
  true, false, ◌==◌, ltb, if◌then◌else◌, length, replicate, take, drop, get_elem?, not, any, Result,
  ok, err,
}
use mathlib.Core.List.{reverse}
use ratum.Base.Bytes.{le_bytes}
use ratum.Base.Bits.{bit_xor}
use ratum.Reader.{Truncated, truncated_itself, Read, ◌>>=◌, ◌>>◌, pure, run, new, u8, u16, u32, arr}

abbrev pub header_v2_size : ℕ
header_v2_size = 164

abbrev pub v2_flag : ℕ
v2_flag = 2 ^ 31

abbrev pub sia_word_len : ℕ
sia_word_len = 4

abbrev pub work_root_leaf_size : ℕ
work_root_leaf_size = 52

abbrev pub work_root_h2_offset : ℕ
work_root_h2_offset = 4

abbrev pub coinb1_leading_zeros : ℕ
coinb1_leading_zeros = work_root_h2_offset - 1

abbrev pub stratum_leaf_prefix_len : ℕ
stratum_leaf_prefix_len = work_root_h2_offset - coinb1_leading_zeros

abbrev pub prevblock_hidden_cleared_bytes : ℕ
prevblock_hidden_cleared_bytes = 6

-- `ASIC_INPUT_LEN` and `ASIC_INPUT_LEADING_ZEROS` of a profile.
abbrev pub asic_input_len : ℕ → ℕ
asic_input_len p = if ltb p 2 then 80 else if p == 2 then 128 else 160

abbrev pub asic_input_leading_zeros : ℕ → ℕ
asic_input_leading_zeros p = if ltb p 2 then 0 else if p == 2 then 48 else 80

pub record BlockHeaderV2 : Type 0 where
  pub version : ℕ
  pub prev_block : List ℕ
  pub merkle_root : List ℕ
  pub time : ℕ
  pub bits : ℕ
  pub nonce : ℕ
  pub nonce2 : ℕ
  pub nonce3 : ℕ
  pub extranonce : List ℕ
  pub time_offset : ℕ
  pub txcount : ℕ
  pub flags : ℕ
  pub xor_key_mask_clear_bits : ℕ
  pub xor_key : List ℕ
  pub height : ℕ
  pub mm_rhs : List ℕ

-- `flags & FLAG_USE_TIME_OFFSET != 0`, and `asic_profile`.
unfoldable pub uses_time_offset : ℕ → Bool
uses_time_offset flags = not (flags / 4 % 2 == 0)

unfoldable pub asic_profile : BlockHeaderV2 → ℕ
asic_profile h = h.flags % 4

unfoldable pub time_on_wire : BlockHeaderV2 → ℕ
time_on_wire h =
    if uses_time_offset h.flags then (h.time + 2 ^ 32 - h.time_offset) % 2 ^ 32 else h.time

unfoldable pub serialize : BlockHeaderV2 → List ℕ
serialize h =
    le_bytes 4 (v2_flag + h.version % v2_flag)
    ++ (h.prev_block
        ++ (h.merkle_root
            ++ (le_bytes 4 (time_on_wire h)
                ++ (le_bytes 4 h.bits
                    ++ (le_bytes 4 h.nonce
                        ++ (le_bytes 4 h.nonce2
                            ++ (le_bytes 4 h.nonce3
                                ++ (h.extranonce
                                    ++ (le_bytes 4 h.time_offset
                                        ++ (le_bytes 2 h.txcount
                                            ++ (le_bytes 1 h.flags
                                                ++ (le_bytes 1 h.xor_key_mask_clear_bits
                                                    ++ (h.xor_key
                                                        ++ (le_bytes 4 h.height
                                                            ++ h.mm_rhs))))))))))))))

-- The time of a header whose flags have the offset's.
unfoldable pub restore_time : BlockHeaderV2 → BlockHeaderV2
restore_time h =
    if uses_time_offset h.flags then record h { time = (h.time + h.time_offset) % 2 ^ 32 } else h

-- The fields after the version.
unfoldable pub read_fields : ℕ → Read Truncated BlockHeaderV2
read_fields v = do
  prev_block ← arr 32 "prev block"
  merkle_root ← arr 32 "merkle root"
  time ← u32 "time"
  bits ← u32 "bits"
  nonce ← u32 "nonce"
  nonce2 ← u32 "nonce2"
  nonce3 ← u32 "nonce3"
  extranonce ← arr 16 "extranonce"
  time_offset ← u32 "time offset"
  txcount ← u16 "txcount"
  flags ← u8 "flags"
  clear_bits ← u8 "xor key mask clear bits"
  xor_key ← arr 16 "xor key"
  height ← u32 "height"
  mm_rhs ← arr 32 "mm rhs"
  pure (
      restore_time (record {
        version = v % v2_flag;
        prev_block = prev_block;
        merkle_root = merkle_root;
        time = time;
        bits = bits;
        nonce = nonce;
        nonce2 = nonce2;
        nonce3 = nonce3;
        extranonce = extranonce;
        time_offset = time_offset;
        txcount = txcount;
        flags = flags;
        xor_key_mask_clear_bits = clear_bits;
        xor_key = xor_key;
        height = height;
        mm_rhs = mm_rhs;
      }))

-- A header without the flag of version 2 is none.
unfoldable pub read_header : Read Truncated (Option BlockHeaderV2)
read_header = do
  v ← u32 "version"
  if ltb v v2_flag then pure none else (read_fields v >>= λ h. pure (some h))

unfoldable pub header_of : Result Truncated (Option BlockHeaderV2) → Option BlockHeaderV2
header_of (ok h) = h
header_of (err e) = none

unfoldable pub deserialize : List ℕ → Option BlockHeaderV2
deserialize b = if length b == header_v2_size then header_of (run read_header (new b)) else none

unfoldable pub sia_words : ℕ → ℕ → List ℕ
sia_words low high = le_bytes 4 low ++ le_bytes 4 high

unfoldable pub asic_input_body : List ℕ → List ℕ → List ℕ → List ℕ → List ℕ
asic_input_body head sia_nonce sia_ntime work_root = head ++ (sia_nonce ++ (sia_ntime ++ work_root))

unfoldable pub xor_bytes : List ℕ → List ℕ → List ℕ
xor_bytes [] ms = []
xor_bytes (b ∷ bs) [] = b ∷ bs
xor_bytes (b ∷ bs) (m ∷ ms) = bit_xor b m ∷ xor_bytes bs ms

-- The leading bits of a mask are cleared: whole bytes, and the upper bits of the one after them.
unfoldable pub clear_leading : ℕ → List ℕ → List ℕ
clear_leading bits [] = []
clear_leading bits (b ∷ bs) =
    let rest = clear_leading (bits - 8) bs in
    if ltb bits 8 then (b % 2 ^ (8 - bits)) ∷ bs else 0 ∷ rest

pub record HashStages : Type 0 where
  pub h1 : List ℕ
  pub h2 : List ℕ
  pub work_root : List ℕ
  pub xor_key_mask : List ℕ

pub record PowHashes : Type 0 where
  pub raw_pow_hash : List ℕ
  pub block_hash : List ℕ

module _ (sha256 blake2b_256 : List ℕ → List ℕ) (as_bytes : String → List ℕ) where
  unfoldable pub tagged_sha256 : String → List ℕ → List ℕ
  tagged_sha256 tag data_bytes =
      sha256 (sha256 (as_bytes tag) ++ (sha256 (as_bytes tag) ++ data_bytes))

  unfoldable pub work_root_of : List ℕ → List ℕ → List ℕ
  work_root_of h2 extranonce = blake2b_256 (replicate work_root_h2_offset 0 ++ (h2 ++ extranonce))

  unfoldable pub work_root_from_stratum : List ℕ → List ℕ → List ℕ → Option (List ℕ)
  work_root_from_stratum coinb1 extranonce coinb2 =
      let leaf = replicate stratum_leaf_prefix_len 0 ++ (coinb1 ++ (extranonce ++ coinb2)) in
      if length leaf == work_root_leaf_size then some (blake2b_256 leaf) else none

  unfoldable pub xor_key_hash : List ℕ → List ℕ
  xor_key_hash xor_key = tagged_sha256 "Bitcoin block hash PoW XOR key" xor_key

  unfoldable pub prevblock_hidden : List ℕ → List ℕ
  prevblock_hidden prev_block =
      replicate prevblock_hidden_cleared_bytes 0
      ++ drop prevblock_hidden_cleared_bytes
          (tagged_sha256 "Bitcoin prevblock header, hashed" (reverse prev_block))

  unfoldable pub xor_key_mask : List ℕ → ℕ → List ℕ
  xor_key_mask xor_key clear_bits =
      if not (any (λ b. not (b == 0)) xor_key)
      then replicate 32 0
      else clear_leading clear_bits (tagged_sha256 "Bitcoin block hash PoW XOR mask" xor_key)

  unfoldable pub asic_input_with : BlockHeaderV2 → List ℕ → List ℕ → List ℕ
  asic_input_with h work_root h2 =
      if asic_profile h == 1
      then le_bytes 4 h.nonce
        ++ (le_bytes 4 h.nonce2
            ++ (le_bytes 4 h.nonce3 ++ (le_bytes 4 h.time_offset ++ (work_root ++ h2))))
      else replicate (asic_input_leading_zeros (asic_profile h)) 0
        ++ asic_input_body (if asic_profile h == 0 then prevblock_hidden h.prev_block else h2)
            (sia_words h.nonce h.nonce2) (sia_words h.time_offset h.nonce3) work_root

  unfoldable pub h1_preimage : BlockHeaderV2 → List ℕ → List ℕ
  h1_preimage h key_hash =
      le_bytes 4 (v2_flag + h.version % v2_flag)
      ++ (reverse h.prev_block
          ++ (le_bytes 4 h.height
              ++ (h.merkle_root
                  ++ (le_bytes 4 (time_on_wire h)
                      ++ (0
                          ∷ (le_bytes 4 h.bits
                              ++ (le_bytes 4 h.txcount
                                  ++ (le_bytes 1 h.flags
                                      ++ (le_bytes 1 h.xor_key_mask_clear_bits ++ key_hash)))))))))

  unfoldable pub hash_stages_with_key_hash : BlockHeaderV2 → List ℕ → HashStages
  hash_stages_with_key_hash h key_hash =
      let h1 = tagged_sha256 "Bitcoin block header 1" (h1_preimage h key_hash) in
      let h2 = tagged_sha256 "Merge-mining hook" (h1 ++ (replicate 32 0 ++ h.mm_rhs)) in
      record {
        h1 = h1;
        h2 = h2;
        work_root = work_root_of h2 h.extranonce;
        xor_key_mask = xor_key_mask h.xor_key h.xor_key_mask_clear_bits;
      }

  unfoldable pub hash_stages : BlockHeaderV2 → HashStages
  hash_stages h = hash_stages_with_key_hash h (xor_key_hash h.xor_key)

  unfoldable pub raw_pow_hash : BlockHeaderV2 → HashStages → List ℕ
  raw_pow_hash h stages = blake2b_256 (asic_input_with h stages.work_root stages.h2)

  unfoldable pub pow_hashes : BlockHeaderV2 → PowHashes
  pow_hashes h =
      let stages = hash_stages h in
      record {
        raw_pow_hash = raw_pow_hash h stages;
        block_hash = xor_bytes (raw_pow_hash h stages) stages.xor_key_mask;
      }
