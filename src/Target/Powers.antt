-- ===== src/Target/Powers.antt =====
-- Rounding a difficulty to a power of two.
use native.Mathlib.Nat.{pow-suc, one-le-pow, mod-eq_of_lt, pow-le-pow_right}
use ratum.Base.{
  false, ℕ, zero, suc, ◌*◌, ◌/◌, ◌^◌, ◌<◌, ◌≤◌, ◌≡◌, ap, arith, ltb, leb, Bool-cases, inl, inr,
  ltb→lt, ltb→le, leb→le,
}
use ratum.Base.Bits.{bit_and_mask}
use ratum.Target.{ilog2, floor_log2, difficulty_for_exponent, pow2_floor}

-- With a round for every bit, `ilog2` finds the highest one.
ilog2-brackets :
    (rounds v : ℕ)
    → 0 < v
    → v < 2 ^ suc rounds
    → (ilog2 rounds v ≤ rounds) × (2 ^ ilog2 rounds v ≤ v) × (v < 2 * 2 ^ ilog2 rounds v)
unfolding ilog2
ilog2-brackets zero v hp hv = omega arith
ilog2-brackets (suc rounds) v hp hv = ground (
  arith,
  pow-suc 2 (suc rounds),
  λ (h : 2 ≤ v).
      ilog2-brackets rounds (v / 2) (omega arith) (omega (arith, pow-suc 2 (suc rounds))),
  pow-suc 2 (ilog2 rounds (v / 2)),
)

floor_log2-brackets :
    (v : ℕ)
    → 0 < v
    → v < 2 ^ 64
    → (floor_log2 v < 64) × (2 ^ floor_log2 v ≤ v) × (v < 2 * 2 ^ floor_log2 v)
unfolding floor_log2
floor_log2-brackets v hp hv =
    let h = ilog2-brackets 64 v hp (omega arith) in ground (arith, h, fits h)
  where
    fits : (ilog2 64 v ≤ 64) × (2 ^ ilog2 64 v ≤ v) × (v < 2 * 2 ^ ilog2 64 v) → ilog2 64 v < 64
    fits h = elim (Bool-cases (ltb (ilog2 64 v) 64)) [
      | inl small ↦ ltb→lt (ilog2 64 v) 64 small
      | inr large ↦
          let e : ilog2 64 v ≡ 64 = omega (arith, h.0, ltb→le (ilog2 64 v) 64 large) in
          absurd (omega (arith, h.1, ap (λ (t : ℕ). 2 ^ t) e))
    ]

-- The largest power of two that a difficulty rounds down to: `pow2_floor v` is a power of two, no
-- more than `v` and more than half of it, for every u64 above zero.
pub pow2_floor-brackets :
    (v : ℕ)
    → 0 < v
    → v < 2 ^ 64
    → (pow2_floor v ≡ 2 ^ floor_log2 v) × (pow2_floor v ≤ v) × (v < 2 * pow2_floor v)
unfolding pow2_floor
pow2_floor-brackets v hp hv =
    let h = floor_log2-brackets v hp hv in
    ground (arith, h, mod-eq_of_lt {n = 2 ^ floor_log2 v} {m = 2 ^ 64} (omega (arith, h.1)))

power_lt : (e k : ℕ) → 2 ^ e < 2 * 2 ^ k → e ≤ k
power_lt e k h = elim (Bool-cases (leb e k)) [
  | inl small ↦ leb→le e k small
  | inr large ↦ absurd (omega (arith, pow-suc 2 k, past (leb_above large)))
]
  where
    leb_above : leb e k ≡ false → suc k ≤ e
    leb_above h = ground arith

    past : suc k ≤ e → 2 ^ suc k ≤ 2 ^ e
    past h = pow-le-pow_right {n = 2} (omega arith) h

exponent_fits : (e : ℕ) → e < 64 → 2 ^ e < 2 ^ 64
exponent_fits e h = omega (arith, pow-suc 2 e, doubled)
  where
    doubled : 2 ^ suc e ≤ 2 ^ 64
    doubled = pow-le-pow_right {n = 2} (omega arith) {i = suc e} {j = 64} h

-- The exponent of a share's difficulty: `floor_log2` gives back each of the 64 exponents that
-- `difficulty_for_exponent` makes a difficulty of.
pub floor_log2-difficulty_for_exponent :
    (e : ℕ) → e < 64 → floor_log2 (difficulty_for_exponent e) ≡ e
unfolding difficulty_for_exponent
floor_log2-difficulty_for_exponent e h =
    let small = mod-eq_of_lt {n = e} {m = 64} h in
    let exact = mod-eq_of_lt {n = 2 ^ e} {m = 2 ^ 64} (exponent_fits e h) in
    let b = floor_log2-brackets (2 ^ e) (one-le-pow e 2 (omega arith)) (exponent_fits e h) in
    rw (bit_and_mask 6 e, small, exact)
      (omega (
        arith,
        power_lt e (floor_log2 (2 ^ e)) b.2,
        power_lt (floor_log2 (2 ^ e)) e (omega (arith, b.1, one-le-pow e 2 (omega arith))),
      ))
