-- ===== src/Datum/Framing/Counter.antt =====
-- The nonce as a little-endian number.
use native.Mathlib.Nat.{pow-suc, one-le-pow, mod-eq_of_lt, mod_self, mod-lt}
use ratum.Base.{
  ℕ, zero, suc, ◌<◌, ◌^◌, ◌+◌, ◌*◌, ◌%◌, ◌≡◌, ◌≢◌, sym, ap, ◌∙◌, inl, inr, arith, true, false, List,
  [], ◌∷◌, ◌++◌, All, length, take, drop, ◌==◌, Bool-cases, ltb, ltb→lt, ltb→le, ==_iff,
  length-take, length-drop, take-append-drop,
}
use ratum.Base.Bytes.{IsByte, le_bytes, from_le, from_le-le_bytes, from_le-lt, length-le_bytes}
use ratum.Datum.Framing.{increment_words, increment_nonce}

from_le-append : (xs ys : List ℕ) → from_le (xs ++ ys) ≡ from_le xs + from_le ys * 256 ^ length xs
unfolding from_le
from_le-append [] ys = omega arith
from_le-append (x ∷ xs) ys =
    omega (arith, from_le-append xs ys, ap (λ (t : ℕ). from_le ys * t) (pow-suc 256 (length xs)))

word-from_le :
    (w : ℕ) (ys : List ℕ) → w < 2 ^ 32 → from_le (le_bytes 4 w ++ ys) ≡ w + from_le ys * 2 ^ 32
word-from_le w ys h =
    from_le-append (le_bytes 4 w) ys
    ∙ rw (length-le_bytes 4 w) (omega (arith, from_le-le_bytes 4 w h))

take-All : (n : ℕ) (xs : List ℕ) → All IsByte xs → All IsByte (take n xs)
take-All zero xs h = tt
take-All (suc n) [] h = tt
take-All (suc n) (x ∷ xs) h = (h.0, take-All n xs h.1)

drop-All : (n : ℕ) (xs : List ℕ) → All IsByte xs → All IsByte (drop n xs)
drop-All zero xs h = h
drop-All (suc n) [] h = tt
drop-All (suc n) (x ∷ xs) h = drop-All n xs h.1

pow_word : (w : ℕ) → 256 ^ (4 * suc w) ≡ 256 ^ (4 * w) * 2 ^ 32
pow_word w =
    let four : 4 * suc w ≡ suc (suc (suc (suc (4 * w)))) = omega arith in
    ap (λ (t : ℕ). 256 ^ t) four
    ∙ omega (
      arith,
      pow-suc 256 (4 * w),
      pow-suc 256 (suc (4 * w)),
      pow-suc 256 (suc (suc (4 * w))),
      pow-suc 256 (suc (suc (suc (4 * w)))),
    )

-- The lowest word and the words above it.
split_word :
    (w : ℕ) (nonce : List ℕ)
    → length nonce ≡ 4 * suc w
    → from_le nonce ≡ from_le (take 4 nonce) + from_le (drop 4 nonce) * 2 ^ 32
split_word w nonce hl =
    let four : length (take 4 nonce) ≡ 4 = omega (arith, length-take 4 nonce) in
    ap from_le (sym (take-append-drop 4 nonce))
    ∙ from_le-append (take 4 nonce) (drop 4 nonce)
    ∙ ap (λ (t : ℕ). from_le (take 4 nonce) + from_le (drop 4 nonce) * 256 ^ t) four

bound_at : (n : ℕ) (xs : List ℕ) → length xs ≡ n → All IsByte xs → from_le xs < 256 ^ n
bound_at n xs hl hb = rw (sym hl) (from_le-lt xs hb)

-- Adding one to `low + high * 2 ^ 32` below `2 ^ 32 * m`, when the low word wraps and when not.
wrapped :
    (low high m : ℕ)
    → (low + 1) % 2 ^ 32 ≡ 0
    → low < 2 ^ 32
    → high < m
    → (high + 1) % m * 2 ^ 32 ≡ (low + high * 2 ^ 32 + 1) % (m * 2 ^ 32)
wrapped low high m hw hl hh = elim (Bool-cases (ltb (high + 1) m)) [
  | inl below ↦
      let h = ltb→lt (high + 1) m below in
      ap (λ (t : ℕ). t * 2 ^ 32) (mod-eq_of_lt h)
      ∙ sym
          (mod-eq_of_lt {n = low + high * 2 ^ 32 + 1} {m = m * 2 ^ 32} (omega arith) ∙ omega arith)
  | inr top ↦
      let h = ltb→le (high + 1) m top in
      let e : high + 1 ≡ m = omega arith in
      let f : low + high * 2 ^ 32 + 1 ≡ m * 2 ^ 32 = omega arith in
      omega (
        arith,
        ap (λ (t : ℕ). t % m) e,
        ap (λ (t : ℕ). t % (m * 2 ^ 32)) f,
        mod_self m,
        mod_self (m * 2 ^ 32),
      )
]

kept :
    (low high m : ℕ)
    → (low + 1) % 2 ^ 32 ≢ 0
    → low < 2 ^ 32
    → high < m
    → (low + 1) % 2 ^ 32 + high * 2 ^ 32 ≡ (low + high * 2 ^ 32 + 1) % (m * 2 ^ 32)
kept low high m hw hl hh =
    sym (mod-eq_of_lt {n = low + high * 2 ^ 32 + 1} {m = m * 2 ^ 32} (omega arith) ∙ omega arith)

increment_words-from_le :
    (words : ℕ) (nonce : List ℕ)
    → length nonce ≡ 4 * words
    → All IsByte nonce
    → from_le (increment_words words nonce) ≡ (from_le nonce + 1) % 256 ^ (4 * words)
unfolding increment_words from_le
increment_words-from_le zero nonce hl hb =
    omega (arith, mod-lt (from_le nonce + 1) (one-le-pow 0 256 (omega arith)))
increment_words-from_le (suc words) nonce hl hb =
    rw (split_word words nonce hl, pow_word words)
      (elim (Bool-cases (raised == 0)) [
        | inl zeroed ↦ rw zeroed (
            word-from_le raised _ small
            ∙ rest_raised
                (increment_words-from_le words (drop 4 nonce) (omega (arith, length-drop 4 nonce))
                  (drop-All 4 nonce hb))
                zeroed)
        | inr nonzero ↦ rw nonzero (
            word-from_le raised _ small
            ∙ kept low high (256 ^ (4 * words)) (not_zero nonzero) low-lt high-lt)
      ])
  where
    low : ℕ
    low = from_le (take 4 nonce)

    high : ℕ
    high = from_le (drop 4 nonce)

    raised : ℕ
    raised = (low + 1) % 2 ^ 32

    small : raised < 2 ^ 32
    small = omega arith

    low-lt : low < 2 ^ 32
    low-lt = bound_at 4 (take 4 nonce) (omega (arith, length-take 4 nonce)) (take-All 4 nonce hb)

    high-lt : high < 256 ^ (4 * words)
    high-lt =
        bound_at (4 * words) (drop 4 nonce) (omega (arith, length-drop 4 nonce))
          (drop-All 4 nonce hb)

    not_zero : (raised == 0) ≡ false → raised ≢ 0
    not_zero h e = ground arith

    rest_raised :
        from_le (increment_words words (drop 4 nonce)) ≡ (high + 1) % 256 ^ (4 * words)
        → (raised == 0) ≡ true
        → raised + from_le (increment_words words (drop 4 nonce)) * 2 ^ 32
          ≡ (low + high * 2 ^ 32 + 1) % (256 ^ (4 * words) * 2 ^ 32)
    rest_raised ih h =
        let z = (==_iff raised 0).0 h in
        omega (arith, z, ih, wrapped low high (256 ^ (4 * words)) z low-lt high-lt)

-- The nonce counter: `increment_nonce` adds one to a 24-byte nonce read as a little-endian number,
-- modulo 2^192, so the carry runs through every word that wraps and stops at the first that does
-- not.
pub increment_nonce-from_le :
    (nonce : List ℕ)
    → length nonce ≡ 24
    → All IsByte nonce
    → from_le (increment_nonce nonce) ≡ (from_le nonce + 1) % 2 ^ 192
unfolding increment_nonce
increment_nonce-from_le nonce hl hb = increment_words-from_le 6 nonce hl hb
