-- ===== src/Datum/Framing/Header.antt =====
-- A frame header is read back from its four bytes.
use native.Mathlib.Nat.{one-le-pow}
use ratum.Base.{
  ℕ, ◌+◌, ◌-◌, ◌*◌, ◌/◌, ◌%◌, ◌^◌, ◌<◌, ◌≡◌, refl, ap, ◌∙◌, Bool, true, false, arith, not, ◌==◌,
}
use ratum.Base.Bits.{bit_and, bit_or, bit_and_mask, bit_and_bit, bit_or_disjoint}
use ratum.Base.Bytes.{from_le-le_bytes}
use ratum.Datum.Framing.{FrameHeader, bit, to_word, from_word, to_bytes, from_bytes, is_set}

-- The fields fit their bits.
pub record Fits (h : FrameHeader) : Type 0 where
  pub cmd_len : h.cmd_len < 2 ^ 22
  pub reserved : h.reserved < 4
  pub proto_cmd : h.proto_cmd < 32

abbrev sum_of : (a b c d e f : ℕ) → ℕ
sum_of a b c d e f = a + b * 2 ^ 22 + c * 2 ^ 24 + d * 2 ^ 25 + e * 2 ^ 26 + f * 2 ^ 27

-- Fields side by side, ORed together, are their sum.
or_fields :
    (a b c d e f : ℕ)
    → a < 2 ^ 22
    → b < 4
    → c < 2
    → d < 2
    → e < 2
    → bit_or
        (bit_or (bit_or (bit_or (bit_or a (b * 2 ^ 22)) (c * 2 ^ 24)) (d * 2 ^ 25)) (e * 2 ^ 26))
        (f * 2 ^ 27)
      ≡ sum_of a b c d e f
or_fields a b c d e f ha hb hc hd he =
    rw
      (
        bit_or_disjoint 22 a b ha,
        bit_or_disjoint 24 (a + b * 2 ^ 22) c (omega arith),
        bit_or_disjoint 25 (a + b * 2 ^ 22 + c * 2 ^ 24) d (omega arith),
        bit_or_disjoint 26 (a + b * 2 ^ 22 + c * 2 ^ 24 + d * 2 ^ 25) e (omega arith),
        bit_or_disjoint 27 (a + b * 2 ^ 22 + c * 2 ^ 24 + d * 2 ^ 25 + e * 2 ^ 26) f (omega arith),
      )
      refl

bit-lt : (b : Bool) → bit b < 2
bit-lt true = omega arith
bit-lt false = omega arith

word_sum :
    (h : FrameHeader)
    → Fits h
    → to_word h
      ≡ sum_of h.cmd_len h.reserved
          (bit h.is_signed)
          (bit h.is_encrypted_pubkey)
          (bit h.is_encrypted_channel)
          h.proto_cmd
unfolding to_word
word_sum h fits =
    rw (bit_and_mask 22 h.cmd_len, bit_and_mask 2 h.reserved, bit_and_mask 5 h.proto_cmd)
      (rw
        (or_fields (h.cmd_len % 2 ^ 22) (h.reserved % 4) (bit h.is_signed)
          (bit h.is_encrypted_pubkey) (bit h.is_encrypted_channel) (h.proto_cmd % 32) (omega arith)
          (omega arith) (bit-lt h.is_signed) (bit-lt h.is_encrypted_pubkey)
          (bit-lt h.is_encrypted_channel))
        (omega (arith, fits.cmd_len, fits.reserved, fits.proto_cmd)))

nonzero : (x : ℕ) → 0 < x → not (x == 0) ≡ true
nonzero x h = ground arith

zeroed : (x : ℕ) → x ≡ 0 → not (x == 0) ≡ false
zeroed x h = ground arith

is_set-bit : (k v : ℕ) (b : Bool) → v / 2 ^ k % 2 ≡ bit b → is_set v (2 ^ k) ≡ b
is_set-bit k v true h =
    rw (bit_and_bit k v)
      (nonzero (v / 2 ^ k % 2 * 2 ^ k) (rw h (omega (arith, one-le-pow k 2 (omega arith)))))
is_set-bit k v false h = rw (bit_and_bit k v) (zeroed (v / 2 ^ k % 2 * 2 ^ k) (rw h (omega arith)))

from_word_sum :
    (a b f : ℕ) (c d e : Bool)
    → a < 2 ^ 22
    → b < 4
    → f < 32
    → from_word (sum_of a b (bit c) (bit d) (bit e) f) ≡ record {
      cmd_len = a;
      reserved = b;
      is_signed = c;
      is_encrypted_pubkey = d;
      is_encrypted_channel = e;
      proto_cmd = f;
    }
unfolding from_word
from_word_sum a b f c d e ha hb hf =
    let v = sum_of a b (bit c) (bit d) (bit e) f in
    let hc = bit-lt c in
    let hd = bit-lt d in
    let he = bit-lt e in
    let low : bit_and v (2 ^ 22 - 1) ≡ a = bit_and_mask 22 v ∙ omega arith in
    let two : bit_and (v / 2 ^ 22) 3 % 2 ^ 8 ≡ b =
      ap (λ (t : ℕ). t % 2 ^ 8) (bit_and_mask 2 (v / 2 ^ 22)) ∙ omega arith in
    let cmd : bit_and (v / 2 ^ 27) 31 % 2 ^ 8 ≡ f =
      ap (λ (t : ℕ). t % 2 ^ 8) (bit_and_mask 5 (v / 2 ^ 27)) ∙ omega arith in
    let signed = is_set-bit 24 v c (omega arith) in
    let pubkey = is_set-bit 25 v d (omega arith) in
    let channel = is_set-bit 26 v e (omega arith) in
    λ i. record {
      cmd_len = low i;
      reserved = two i;
      is_signed = signed i;
      is_encrypted_pubkey = pubkey i;
      is_encrypted_channel = channel i;
      proto_cmd = cmd i;
    }

-- The frame header's round trip: a header whose fields fit their bits (a command of fewer than
-- 2^22 bytes, two reserved bits, a five-bit command) is what `from_bytes` reads in the four bytes
-- `to_bytes` writes, its three flags included.
pub from_bytes-to_bytes : (h : FrameHeader) → Fits h → from_bytes (to_bytes h) ≡ h
unfolding from_bytes to_bytes
from_bytes-to_bytes h fits = rw (word_sum h fits) (
    rw
      (from_le-le_bytes 4
        (sum_of h.cmd_len h.reserved (bit h.is_signed) (bit h.is_encrypted_pubkey)
          (bit h.is_encrypted_channel) h.proto_cmd)
        (omega (
          arith,
          fits.cmd_len,
          fits.reserved,
          fits.proto_cmd,
          bit-lt h.is_signed,
          bit-lt h.is_encrypted_pubkey,
          bit-lt h.is_encrypted_channel,
        )))
      (from_word_sum h.cmd_len h.reserved h.proto_cmd h.is_signed h.is_encrypted_pubkey
        h.is_encrypted_channel fits.cmd_len fits.reserved fits.proto_cmd))
