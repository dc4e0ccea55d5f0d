-- ===== src/Datum/Framing/Ratchet.antt =====
-- The two ends of a link: one masks each header with its ratchet, the other unmasks with its own.
use native.Mathlib.Nat.{div-le_self}
use ratum.Base.{◌%◌, ◌/◌, ℕ, ◌<◌, ◌^◌, ◌≡◌, refl, ap, ◌∙◌, arith, List, [], ◌∷◌, All}
use ratum.Base.Bits.{bit_xor, bit_xor_twice, bit_xor-lt_pow}
use ratum.Base.Bytes.{le_bytes, from_le, from_le-le_bytes, from_le-lt, le_bytes-IsByte}
use ratum.Datum.Framing.{
  FrameHeader, HeaderKeyRatchet, to_bytes, to_word, from_bytes, from_word, mask, unmask, feedback,
  fold_down,
}
use ratum.Datum.Framing.Header.{Fits, from_bytes-to_bytes}

folded-lt : (k x : ℕ) → fold_down k (x % 2 ^ 32) < 2 ^ 32
folded-lt k x =
    bit_xor-lt_pow 32 (x % 2 ^ 32) (x % 2 ^ 32 / 2 ^ k) (omega arith)
      (omega (arith, div-le_self (x % 2 ^ 32) (2 ^ k)))

feedback-lt : (i : ℕ) → feedback i < 2 ^ 32
unfolding feedback
feedback-lt i = folded-lt 16 _

to_bytes-lt : (h : FrameHeader) → from_le (to_bytes h) < 2 ^ 32
unfolding to_bytes le_bytes
to_bytes-lt h = from_le-lt (le_bytes 4 (to_word h)) (le_bytes-IsByte 4 (to_word h))

-- XORed with the key on one side and with the same key on the other, the word comes back.
unmasked :
    (key : ℕ) (h : FrameHeader)
    → key < 2 ^ 32
    → from_bytes
        (le_bytes 4 (bit_xor (from_le (le_bytes 4 (bit_xor (from_le (to_bytes h)) key))) key))
      ≡ from_bytes (to_bytes h)
unfolding from_bytes
unmasked key h hk =
    let w = from_le (to_bytes h) in
    let sent = from_le-le_bytes 4 (bit_xor w key) (bit_xor-lt_pow 32 w key (to_bytes-lt h) hk) in
    let back = ap (λ (t : ℕ). bit_xor t key) sent ∙ bit_xor_twice w key in
    ap (λ (t : ℕ). from_word (from_le (le_bytes 4 t))) back
    ∙ ap from_word (from_le-le_bytes 4 w (to_bytes-lt h))

-- One header through both ends, with the ratchets at one key below 2^32.
pub unmask-mask :
    (r : HeaderKeyRatchet) (h : FrameHeader)
    → Fits h
    → r.key < 2 ^ 32
    → unmask r ((mask r h).0) ≡ (h, (mask r h).1)
unfolding mask unmask
unmask-mask r h fits hk =
    ap (λ (x : FrameHeader). (x, record { key = feedback r.key }))
      (unmasked r.key h hk ∙ from_bytes-to_bytes h fits)

mask_key-lt : (r : HeaderKeyRatchet) (h : FrameHeader) → ((mask r h).1).key < 2 ^ 32
unfolding mask
mask_key-lt r h = feedback-lt r.key

-- A run of headers through one end, each with the ratchet the one before left.
abbrev pub mask_all : HeaderKeyRatchet → List FrameHeader → List (List ℕ) × HeaderKeyRatchet
mask_all r [] = ([], r)
mask_all r (h ∷ hs) = let (b, r1) = mask r h in let (bs, r2) = mask_all r1 hs in (b ∷ bs, r2)

abbrev pub unmask_all : HeaderKeyRatchet → List (List ℕ) → List FrameHeader × HeaderKeyRatchet
unmask_all r [] = ([], r)
unmask_all r (b ∷ bs) = let (h, r1) = unmask r b in let (hs, r2) = unmask_all r1 bs in (h ∷ hs, r2)

-- Headers whose fields fit their bits, masked one after another by one end from a key below 2^32,
-- are read back by the other end from the same key, and both ratchets end on the same key.
pub unmask_all-mask_all :
    (hs : List FrameHeader) (r : HeaderKeyRatchet)
    → All Fits hs
    → r.key < 2 ^ 32
    → unmask_all r ((mask_all r hs).0) ≡ (hs, (mask_all r hs).1)
unmask_all-mask_all [] r fits hk = refl
unmask_all-mask_all (h ∷ hs) r fits hk = rw (unmask-mask r h fits.0 hk) (
    ap (λ (x : List FrameHeader × HeaderKeyRatchet). (h ∷ x.0, x.1))
      (unmask_all-mask_all hs ((mask r h).1) fits.1 (mask_key-lt r h)))
