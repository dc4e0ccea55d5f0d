-- ===== src/Datum/Framing.antt =====
-- core/src/datum/framing.rs: the four-byte frame header and its masking by a ratchet both sides
-- advance in step, the header keys and nonces derived from `nk`, and the nonce counter.
--
-- A u32 is a number below 2^32 and `wrapping_*` is written out. `|` of fields is `bit_or`, `<< k`
-- is `* 2 ^ k` and `>> k` is `/ 2 ^ k`; in `to_bytes` every shifted field stays inside 32 bits.
pub mod Header
pub mod Ratchet
pub mod Counter
use ratum.Base.{
  ℕ, zero, suc, ◌+◌, ◌-◌, ◌*◌, ◌/◌, ◌%◌, ◌^◌, Bool, true, false, not, ◌==◌, if◌then◌else◌, List, [],
  ◌∷◌, ◌++◌, take, drop,
}
use ratum.Base.Bits.{bit_and, bit_or, bit_xor}
use ratum.Base.Bytes.{le_bytes, from_le}

abbrev pub header_len : ℕ
header_len = 4

abbrev pub cmd_len_bits : ℕ
cmd_len_bits = 22

abbrev pub cmd_len_mask : ℕ
cmd_len_mask = 2 ^ cmd_len_bits - 1

abbrev pub max_cmd_len : ℕ
max_cmd_len = cmd_len_mask

abbrev pub initial_header_key : ℕ
initial_header_key = 0xdc871829

abbrev pub nonce_words : ℕ
nonce_words = 6

abbrev nonce_step : ℕ
nonce_step = 42

abbrev sender_mask : ℕ
sender_mask = 0x57575757

pub record FrameHeader : Type 0 where
  pub cmd_len : ℕ
  pub reserved : ℕ
  pub is_signed : Bool
  pub is_encrypted_pubkey : Bool
  pub is_encrypted_channel : Bool
  pub proto_cmd : ℕ

-- `u32::from(b)`.
abbrev pub bit : Bool → ℕ
bit b = if b then 1 else 0

-- The word that `FrameHeader::to_bytes` writes little-endian.
unfoldable pub to_word : FrameHeader → ℕ
to_word h =
    bit_or
      (bit_or
        (bit_or
          (bit_or (bit_or (bit_and h.cmd_len cmd_len_mask) (bit_and h.reserved 3 * 2 ^ 22))
            (bit h.is_signed * 2 ^ 24))
          (bit h.is_encrypted_pubkey * 2 ^ 25))
        (bit h.is_encrypted_channel * 2 ^ 26))
      (bit_and h.proto_cmd 31 * 2 ^ 27)

unfoldable pub to_bytes : FrameHeader → List ℕ
to_bytes h = le_bytes 4 (to_word h)

abbrev pub is_set : ℕ → ℕ → Bool
is_set v flag = not (bit_and v flag == 0)

unfoldable pub from_word : ℕ → FrameHeader
from_word v = record {
  cmd_len = bit_and v cmd_len_mask;
  reserved = bit_and (v / 2 ^ 22) 3 % 2 ^ 8;
  is_signed = is_set v (2 ^ 24);
  is_encrypted_pubkey = is_set v (2 ^ 25);
  is_encrypted_channel = is_set v (2 ^ 26);
  proto_cmd = bit_and (v / 2 ^ 27) 31 % 2 ^ 8;
}

unfoldable pub from_bytes : List ℕ → FrameHeader
from_bytes b = from_word (from_le b)

abbrev wrapping_mul : ℕ → ℕ → ℕ
wrapping_mul a b = a * b % 2 ^ 32

abbrev wrapping_add : ℕ → ℕ → ℕ
wrapping_add a b = (a + b) % 2 ^ 32

abbrev wrapping_sub : ℕ → ℕ → ℕ
wrapping_sub a b = (a + 2 ^ 32 - b) % 2 ^ 32

-- `rotate_left` of a u32.
abbrev rotate_left : ℕ → ℕ → ℕ
rotate_left x k = x * 2 ^ k % 2 ^ 32 + x / 2 ^ (32 - k)

-- `!x` of a u32.
abbrev complement : ℕ → ℕ
complement x = 2 ^ 32 - 1 - x

-- `h ^= h >> k`.
abbrev pub fold_down : ℕ → ℕ → ℕ
fold_down k h = bit_xor h (h / 2 ^ k)

unfoldable pub feedback : ℕ → ℕ
feedback i =
    let k = wrapping_mul (rotate_left (wrapping_mul i 0xcc9e2d51) 15) 0x1b873593 in
    let h = wrapping_add (wrapping_mul (rotate_left (bit_xor 0xb10cfeed k) 13) 5) 0xe6546b64 in
    let a = wrapping_mul (fold_down 16 (bit_xor h 4)) 0x85ebca6b in
    let b = wrapping_mul (fold_down 13 a) 0xc2b2ae35 in fold_down 16 b

-- `HeaderKeyRatchet`: its key. Both operations return the advanced ratchet.
pub record HeaderKeyRatchet : Type 0 where
  pub key : ℕ

abbrev pub initial : HeaderKeyRatchet
initial = record { key = initial_header_key }

unfoldable pub mask : HeaderKeyRatchet → FrameHeader → List ℕ × HeaderKeyRatchet
mask r h = (le_bytes 4 (bit_xor (from_le (to_bytes h)) r.key), record { key = feedback r.key })

unfoldable pub unmask : HeaderKeyRatchet → List ℕ → FrameHeader × HeaderKeyRatchet
unmask r b = (from_bytes (le_bytes 4 (bit_xor (from_le b) r.key)), record { key = feedback r.key })

pub record HeaderKeys : Type 0 where
  pub client_to_server : ℕ
  pub server_to_client : ℕ

-- `HeaderKeys::from_nk`.
unfoldable pub from_nk : ℕ → HeaderKeys
from_nk nk = record { client_to_server = feedback nk; server_to_client = feedback (complement nk) }

pub record SessionNonces : Type 0 where
  pub client_receiver : List ℕ
  pub client_sender : List ℕ

-- The loop of `SessionNonces::derive` over the words of both nonces.
unfoldable pub derive_words : ℕ → ℕ → SessionNonces
derive_words zero n = record { client_receiver = []; client_sender = [] }
derive_words (suc words) n =
    let r = feedback (wrapping_sub n nonce_step) in
    let rest = derive_words words (complement r) in
    record {
      client_receiver = le_bytes 4 r ++ rest.client_receiver;
      client_sender = le_bytes 4 (bit_xor r sender_mask) ++ rest.client_sender;
    }

-- `SessionNonces::derive`: the seed is the word at byte 7 of the session's public key.
unfoldable pub derive : ℕ → List ℕ → SessionNonces
derive nk session_sign_pk =
    derive_words nonce_words
      (bit_xor (wrapping_sub nk nonce_step) (from_le (take 4 (drop 7 session_sign_pk))))

-- `increment_nonce`, on the words of the nonce: the carry stops at the first word that does not
-- wrap to zero.
unfoldable pub increment_words : ℕ → List ℕ → List ℕ
increment_words zero nonce = []
increment_words (suc words) nonce =
    let raised = (from_le (take 4 nonce) + 1) % 2 ^ 32 in
    let rest = increment_words words (drop 4 nonce) in
    le_bytes 4 raised ++ (if not (raised == 0) then drop 4 nonce else rest)

unfoldable pub increment_nonce : List ℕ → List ℕ
increment_nonce nonce = increment_words nonce_words nonce
