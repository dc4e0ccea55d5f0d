-- ===== src/Tests/Headers.antt =====
-- A header with an offset of its time, and the leaf of a miner's job; the hashes are 32 copies of a
-- length in place of SHA-256 and BLAKE2b.
use ratum.Base.{ℕ, ◌≡◌, refl, arith, String, List, [], ◌++◌, some, length, replicate}
use ratum.Header.{
  BlockHeaderV2, serialize, deserialize, work_root_of, work_root_from_stratum, coinb1_leading_zeros,
}
use ratum.Header.RoundTrip.{Fits, deserialize-serialize}
use ratum.Header.Layout.{work_root_from_stratum-work_root_of}

abbrev header : BlockHeaderV2
header = record {
  version = 536_870_912;
  prev_block = replicate 32 1;
  merkle_root = replicate 32 2;
  time = 5;
  bits = 486_604_799;
  nonce = 7;
  nonce2 = 8;
  nonce3 = 9;
  extranonce = replicate 16 3;
  time_offset = 600;
  txcount = 2;
  flags = 6;
  xor_key_mask_clear_bits = 12;
  xor_key = replicate 16 4;
  height = 100;
  mm_rhs = replicate 32 5;
}

header-Fits : Fits header
header-Fits = record {
  version = omega arith;
  prev_block = refl;
  merkle_root = refl;
  time = omega arith;
  bits = omega arith;
  nonce = (omega arith, omega arith, omega arith);
  extranonce = refl;
  time_offset = omega arith;
  txcount = omega arith;
  flags = omega arith;
  clear_bits = omega arith;
  xor_key = refl;
  height = omega arith;
  mm_rhs = refl;
}

deserialize-serialize_example : deserialize (serialize header) ≡ some header
deserialize-serialize_example = deserialize-serialize header header-Fits

abbrev digest : List ℕ → List ℕ
digest bs = replicate 32 (length bs)

abbrev no_bytes : String → List ℕ
no_bytes s = []

work_root_from_stratum-work_root_of_example :
    work_root_from_stratum digest digest no_bytes
      (replicate coinb1_leading_zeros 0 ++ replicate 32 6)
      (replicate 16 3)
      []
    ≡ some (work_root_of digest digest no_bytes (replicate 32 6) (replicate 16 3))
work_root_from_stratum-work_root_of_example =
    work_root_from_stratum-work_root_of digest digest no_bytes (replicate 32 6) (replicate 16 3)
      refl refl
