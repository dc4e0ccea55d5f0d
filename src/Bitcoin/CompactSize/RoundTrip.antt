-- ===== src/Bitcoin/CompactSize/RoundTrip.antt =====
-- A count is read back as it was written, and the bytes that a count is read from are its shortest.
use ratum.Base.{
  ℕ, ◌≤◌, ◌<◌, ◌≡◌, ◌^◌, refl, arith, List, ◌++◌, false, leb, ltb, ◌==◌, ok, Bool-cases, inl, inr,
}
use ratum.Reader.{u8, cursor}
use ratum.Reader.Laws.{
  >>=_ok, u8-cons, u16-append, u32-append, u64-append, get_le-append, fail_if-false,
}
use ratum.Bitcoin.CompactSize.{
  from_truncated, bad_compact_size, compact_size_max_1, compact_size_max_2, compact_size_max_4,
  encode_compact_size, not_under, after_first, decode_compact_size,
}

under : (minimum v : ℕ) → minimum ≤ v → ltb v minimum ≡ false
under minimum v h = ground (arith, h)

not_under_ok :
    (minimum v : ℕ) (w r : List ℕ)
    → minimum ≤ v
    → not_under minimum v (cursor w r) ≡ ok (v, cursor w r)
unfolding not_under
not_under_ok minimum v w r h =
    >>=_ok _ _ (fail_if-false bad_compact_size (cursor w r) (under minimum v h)) refl

after_first_small :
    (n : ℕ) (w r : List ℕ)
    → n ≤ compact_size_max_1
    → after_first n (cursor w r) ≡ ok (n, cursor w r)
unfolding after_first
after_first_small n w r h =
    rw (is_not 253 (omega arith), is_not 254 (omega arith), is_not 255 (omega arith))
      (not_under_ok 0 n w r (omega arith))
  where
    is_not : (k : ℕ) → n < k → (n == k) ≡ false
    is_not k l = ground (arith, l)

-- Every count of 64 bits is decoded to itself, whichever of the four forms it is written in, and
-- what follows it is left.
pub decode_compact_size-encode_compact_size :
    (n : ℕ) (w r : List ℕ)
    → n < 2 ^ 64
    → decode_compact_size (cursor w (encode_compact_size n ++ r)) ≡ ok (n, cursor w r)
unfolding decode_compact_size encode_compact_size after_first u8
decode_compact_size-encode_compact_size n w r h = elim (Bool-cases (leb n compact_size_max_1)) [
  | inl one ↦ rw one (
      >>=_ok _ _ (get_le-append 1 "compact size" w r n (ground (arith, one)))
        (after_first_small n w r (ground (arith, one))))
  | inr more ↦ rw more (elim (Bool-cases (leb n compact_size_max_2)) [
    | inl two ↦ rw two (
        >>=_ok _ _ (u8-cons _ w _ 253) (
          >>=_ok _ _ (u16-append _ w r n (ground (arith, two)))
            (not_under_ok _ n w r (ground (arith, more)))))
    | inr more2 ↦ rw more2 (elim (Bool-cases (leb n compact_size_max_4)) [
      | inl four ↦ rw four (
          >>=_ok _ _ (u8-cons _ w _ 254) (
            >>=_ok _ _ (u32-append _ w r n (ground (arith, four)))
              (not_under_ok _ n w r (ground (arith, more2)))))
      | inr more4 ↦ rw more4 (
          >>=_ok _ _ (u8-cons _ w _ 255)
            (>>=_ok _ _ (u64-append _ w r n h) (not_under_ok _ n w r (ground (arith, more4)))))
    ])
  ])
]
