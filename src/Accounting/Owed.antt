-- ===== src/Accounting/Owed.antt =====
-- What is recorded as owed for the outputs that a coinbase left out.
use ratum.Base.{
  ℕ, ◌+◌, ◌-◌, ◌*◌, ◌/◌, ◌%◌, ◌^◌, ◌≤◌, ◌<◌, ◌≡◌, arith, min, List, [], ◌∷◌, All, ◌==◌, ltb,
  Bool-cases, inl, inr,
}
use native.Mathlib.Nat.{
  div-mul-le_self, mul_comm, mod-le, mul-le-mul_right, le_of_mul-le-mul_right, le_trans, add-mul,
}
use ratum.Ledger.Split.{Payout, total_sats, SplitPolicy, fee_on}
use ratum.Accounting.{scale, unpaid_entries}

share_of-le :
    (sats available dictated : ℕ)
    → sats * available / dictated % 2 ^ 64 * dictated ≤ sats * available
share_of-le sats available dictated =
    le_trans (mul-le-mul_right dictated (mod-le (sats * available / dictated) (2 ^ 64)))
      (div-mul-le_self (sats * available) dictated)

scale-le :
    (available dictated : ℕ) (ps : List Payout)
    → total_sats (scale available dictated ps) * dictated ≤ total_sats ps * available
unfolding scale
scale-le available dictated [] = omega arith
scale-le available dictated (p ∷ ps) =
    let x = p.sats * available / dictated % 2 ^ 64 in
    let rest = scale-le available dictated ps in
    elim (Bool-cases (x == 0)) [
      | inl zero_share ↦
          rw zero_share (omega (arith, rest, add-mul p.sats (total_sats ps) available))
      | inr some_share ↦ rw some_share (
          omega (
            arith,
            rest,
            share_of-le p.sats available dictated,
            add-mul p.sats (total_sats ps) available,
            add-mul x (total_sats (scale available dictated ps)) dictated,
          ))
    ]

scale-All :
    (available dictated : ℕ) (ps : List Payout)
    → All (λ p. 0 < p.sats) (scale available dictated ps)
unfolding scale
scale-All available dictated [] = tt
scale-All available dictated (p ∷ ps) =
    elim (Bool-cases (p.sats * available / dictated % 2 ^ 64 == 0)) [
      | inl zero_share ↦ rw zero_share (scale-All available dictated ps)
      | inr some_share ↦ rw some_share (ground (arith, some_share), scale-All available dictated ps)
    ]

-- What is recorded as owed for the outputs that a coinbase left out, which total less than 2^64,
-- never totals more than what the pool's script received beyond the operator fee on the block.
pub unpaid_entries-le :
    (policy : SplitPolicy) (paid_to_split paid_to_pool : ℕ) (unpaid : List Payout)
    → total_sats unpaid < 2 ^ 64
    → total_sats (unpaid_entries policy paid_to_split paid_to_pool unpaid)
      ≤ paid_to_pool - fee_on policy (min (paid_to_split + paid_to_pool) (2 ^ 64 - 1))
unfolding unpaid_entries
unpaid_entries-le policy paid_to_split paid_to_pool unpaid h =
    let available =
      paid_to_pool - fee_on policy (min (paid_to_split + paid_to_pool) (2 ^ 64 - 1)) in
    rw (whole (total_sats unpaid) h) (elim (Bool-cases (ltb available (total_sats unpaid))) [
      | inl over ↦ rw over (
          le_of_mul-le-mul_right {m = total_sats (scale available (total_sats unpaid) unpaid)}
            {n = available} {k = total_sats unpaid}
            (omega (
              arith,
              scale-le available (total_sats unpaid) unpaid,
              mul_comm available (total_sats unpaid),
            ))
            (ground (arith, over)))
      | inr within ↦ rw within (ground (arith, within))
    ])
  where
    whole : (n : ℕ) → n < 2 ^ 64 → n % 2 ^ 64 ≡ n
    whole n l = omega arith
