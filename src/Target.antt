-- ===== src/Target.antt =====
-- core/src/target.rs: the powers of two that a difficulty rounds to, as u64 arithmetic.
--
-- `u64::ilog2` is a loop that halves; 64 rounds halve every u64 to zero.
pub mod Powers
use ratum.Base.{ℕ, zero, suc, ◌+◌, ◌-◌, ◌*◌, ◌/◌, ◌%◌, ◌^◌, ◌==◌, ltb, leb, if◌then◌else◌}
use ratum.Base.Bits.{bit_and}

abbrev pub u64_bits : ℕ
u64_bits = 64

-- `ilog2` of a value above zero.
unfoldable pub ilog2 : (rounds v : ℕ) → ℕ
ilog2 zero v = 0
ilog2 (suc rounds) v = let rest = ilog2 rounds (v / 2) in if ltb v 2 then 0 else suc rest

unfoldable pub floor_log2 : ℕ → ℕ
floor_log2 diff = if diff == 0 then 0 else ilog2 u64_bits diff % 2 ^ 8

unfoldable pub difficulty_for_exponent : ℕ → ℕ
difficulty_for_exponent exponent = 2 ^ bit_and exponent (u64_bits - 1) % 2 ^ 64

unfoldable pub pow2_floor : ℕ → ℕ
pow2_floor v = if v == 0 then 0 else 2 ^ floor_log2 v % 2 ^ 64

-- `checked_next_power_of_two().unwrap_or(1 << 63)`: the powers of two are tried in turn.
unfoldable pub next_power_of_two : (rounds p v : ℕ) → ℕ
next_power_of_two zero p v = 2 ^ 63
next_power_of_two (suc rounds) p v =
    let rest = next_power_of_two rounds (p * 2) v in if leb v p then p else rest

unfoldable pub pow2_ceil : ℕ → ℕ
pow2_ceil v = if v == 0 then 0 else next_power_of_two u64_bits 1 v
