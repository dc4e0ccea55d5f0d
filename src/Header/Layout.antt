-- ===== src/Header/Layout.antt =====
-- The inputs that the hardware hashes: their lengths, and the leaf that a miner builds.
use ratum.Base.{
  ℕ, ◌+◌, ◌≡◌, refl, ap₂, ◌∙◌, arith, String, List, [], ◌++◌, some, Bool, true, false, ◌==◌,
  if◌then◌else◌, length, length-append, length-replicate, length-drop, replicate, Bool-cases, inl,
  inr,
}
use mathlib.Core.List.{reverse, append-nil}
use ratum.Base.Bytes.{le_bytes}
use ratum.Header.{
  BlockHeaderV2, asic_profile, asic_input_len, asic_input_leading_zeros, asic_input_body,
  asic_input_with, sia_words, prevblock_hidden, tagged_sha256, work_root_of, work_root_from_stratum,
  coinb1_leading_zeros, prevblock_hidden_cleared_bytes,
}

module _ (sha256 blake2b_256 : List ℕ → List ℕ) (as_bytes : String → List ℕ) where
  -- A miner that puts the prefix before the gateway's zeros and the second hash, then the extranonce,
  -- gets the work root of the header, whatever the hashes, for a hash of 32 bytes and an extranonce
  -- of 16.
  pub work_root_from_stratum-work_root_of :
      (h2 extranonce : List ℕ)
      → length h2 ≡ 32
      → length extranonce ≡ 16
      → work_root_from_stratum sha256 blake2b_256 as_bytes
          (replicate coinb1_leading_zeros 0 ++ h2)
          extranonce
          []
        ≡ some (work_root_of sha256 blake2b_256 as_bytes h2 extranonce)
  unfolding work_root_from_stratum work_root_of
  work_root_from_stratum-work_root_of h2 extranonce h e =
      rw append-nil (ground (arith, length-append h2 extranonce, h, e))

  length-sia_words : (low high : ℕ) → length (sia_words low high) ≡ 8
  unfolding sia_words le_bytes
  length-sia_words low high = refl

  module _ (digest : (bs : List ℕ) → length (sha256 bs) ≡ 32) where
    length-prevblock_hidden :
        (prev : List ℕ) → length (prevblock_hidden sha256 blake2b_256 as_bytes prev) ≡ 32
    unfolding prevblock_hidden tagged_sha256
    length-prevblock_hidden prev = omega (
      arith,
      length-drop prevblock_hidden_cleared_bytes (
          tagged_sha256 sha256 blake2b_256 as_bytes "Bitcoin prevblock header, hashed"
            (reverse prev)),
      digest (
          sha256 (as_bytes "Bitcoin prevblock header, hashed")
          ++ (sha256 (as_bytes "Bitcoin prevblock header, hashed") ++ reverse prev)),
    )

    length-asic_input_body :
        (head : List ℕ) (a b c d : ℕ) (root : List ℕ)
        → length head ≡ 32
        → length root ≡ 32
        → length (asic_input_body head (sia_words a b) (sia_words c d) root) ≡ 80
    unfolding asic_input_body
    length-asic_input_body head a b c d root h r = omega (
      arith,
      length-append head (sia_words a b ++ (sia_words c d ++ root)),
      length-append (sia_words a b) (sia_words c d ++ root),
      length-append (sia_words c d) root,
      length-sia_words a b,
      length-sia_words c d,
      h,
      r,
    )

    -- Under each of the four profiles the input that the hardware hashes has the profile's length, for
    -- hashes of 32 bytes.
    pub length-asic_input_with :
        (h : BlockHeaderV2) (root h2 : List ℕ)
        → length root ≡ 32
        → length h2 ≡ 32
        → length (asic_input_with sha256 blake2b_256 as_bytes h root h2)
          ≡ asic_input_len (asic_profile h)
    unfolding asic_input_with le_bytes asic_profile
    length-asic_input_with h root h2 r k = elim (Bool-cases (asic_profile h == 1)) [
      | inl one ↦ rw one (ground (arith, one, length-append root h2, r, k))
      | inr other ↦ rw other (
          with_body
            (if asic_profile h == 0
              then prevblock_hidden sha256 blake2b_256 as_bytes h.prev_block
              else h2)
            (head_length (asic_profile h == 0)) other)
    ]
      where
        head_length :
            (b : Bool)
            → length (if b then prevblock_hidden sha256 blake2b_256 as_bytes h.prev_block else h2)
              ≡ 32
        head_length true = length-prevblock_hidden h.prev_block
        head_length false = k

        lengths :
            (asic_profile h == 1) ≡ false
            → asic_input_leading_zeros (asic_profile h) + 80 ≡ asic_input_len (asic_profile h)
        lengths other = ground (arith, other)

        with_body :
            (head : List ℕ)
            → length head ≡ 32
            → (asic_profile h == 1) ≡ false
            → length (
                replicate (asic_input_leading_zeros (asic_profile h)) 0
                ++ asic_input_body head
                    (sia_words h.nonce h.nonce2)
                    (sia_words h.time_offset h.nonce3)
                    root)
              ≡ asic_input_len (asic_profile h)
        with_body head hl other =
            length-append (replicate (asic_input_leading_zeros (asic_profile h)) 0) (
              asic_input_body head (sia_words h.nonce h.nonce2) (sia_words h.time_offset h.nonce3)
                root)
            ∙ ap₂ (λ a b. a + b) (length-replicate (asic_input_leading_zeros (asic_profile h)) 0)
                (length-asic_input_body head h.nonce h.nonce2 h.time_offset h.nonce3 root hl r)
            ∙ lengths other
