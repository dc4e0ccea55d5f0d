-- ===== src/Ledger/Split/Payouts.antt =====
-- What a split pays: at most the value; nothing or all of it; no output under the minimum; no more
-- outputs than the limit; and the operator fee beside it.
use ratum.Base.{
  ℕ, ◌+◌, ◌*◌, ◌/◌, ◌^◌, ◌≤◌, ◌<◌, ◌≡◌, ◌⊎◌, refl, sym, ◌∙◌, List, [], ◌∷◌, arith, inl, inr, length,
  All, take, length-take,
}
use mathlib.Core.List.{reverse}
use native.Mathlib.Nat.{le_trans, mul-le-mul_left, le-div_iff_mul-le}
use ratum.Ledger.Split.{
  Entry, total_weight, sort_entries, prune, pay, split_sorted, split_with, total_sats, u128_max,
  SplitPolicy, fee_on, miners_share, basis_points_of,
}
use ratum.Ledger.Split.Kept.{
  IsKept, IsRising, IsFalling, prune-IsKept, reverse-IsRising, take-IsFalling,
  sort_entries-IsFalling, total_weight-take, total_weight-sort_entries, total_weight-reverse,
  length-reverse, All-reverse,
}
use ratum.Ledger.Split.Amounts.{pay-length, pay-le, pay_all, pay_at_least, IsWorth}

module _ (value minimum : ℕ) (es : List Entry) where
  kept_part : ℕ × List Entry
  kept_part = prune value minimum (total_weight es) (reverse es)

  kept_part-IsKept : IsKept value minimum (reverse es) kept_part
  unfolding kept_part
  kept_part-IsKept =
      prune-IsKept value minimum (total_weight es) (reverse es) (sym (total_weight-reverse es))

  kept_work : kept_part.0 ≡ total_weight (reverse kept_part.1)
  kept_work = kept_part-IsKept.work ∙ sym (total_weight-reverse kept_part.1)

  split_sorted-le : total_sats (split_sorted value minimum es) ≤ value
  unfolding split_sorted kept_part
  split_sorted-le = pay-le value _ (reverse kept_part.1) kept_work

module _ (value minimum : ℕ) (es : List Entry) where
  pays_all_or_none :
      (p : ℕ × List Entry)
      → IsKept value minimum es p
      → value < 2 ^ 64
      → value * total_weight es ≤ u128_max
      → (pay value (p.0) (reverse p.1) ≡ []) ⊎ (total_sats (pay value (p.0) (reverse p.1)) ≡ value)
  unfolding pay
  pays_all_or_none (work, []) k hv hm = inl refl
  pays_all_or_none (work, e ∷ kept) k hv hm = inr (
      pay_all value work (reverse (e ∷ kept)) (k.work ∙ sym (total_weight-reverse (e ∷ kept)))
        k.worth.0 hv (le_trans (mul-le-mul_left value k.within) hm))

  IsWorth-rest :
      (work w : ℕ) (kept : List Entry)
      → minimum * work ≤ value * w
      → All (λ x. w ≤ x.1) kept
      → IsWorth minimum value work kept
  IsWorth-rest work w [] h k = tt
  IsWorth-rest work w (e ∷ kept) h k =
      (le_trans h (mul-le-mul_left value k.0), IsWorth-rest work w kept h k.1)

  kept-IsWorth :
      (p : ℕ × List Entry)
      → IsKept value minimum es p
      → IsRising es
      → IsWorth minimum value (p.0) (reverse p.1)
  kept-IsWorth (work, []) k r = tt
  kept-IsWorth (work, e ∷ kept) k r =
      All-reverse _ (e ∷ kept) (lightest, IsWorth-rest work (e.1) kept lightest (k.rising r).0)
    where
      lightest : minimum * work ≤ value * e.1
      lightest = le_trans ((le-div_iff_mul-le k.worth.0).0 k.worth.1) (omega arith)

module _ (value minimum : ℕ) (es : List Entry) where
  split_sorted_all :
      value < 2 ^ 64
      → value * total_weight es ≤ u128_max
      → (split_sorted value minimum es ≡ []) ⊎ (total_sats (split_sorted value minimum es) ≡ value)
  unfolding split_sorted kept_part
  split_sorted_all hv hm =
      pays_all_or_none value minimum (reverse es) _ (kept_part-IsKept value minimum es) hv
        (rw total_weight-reverse hm)

  split_sorted_least :
      value < 2 ^ 64
      → value * total_weight es ≤ u128_max
      → IsFalling es
      → All (λ p. minimum ≤ p.sats) (split_sorted value minimum es)
  unfolding split_sorted kept_part
  split_sorted_least hv hm hf =
      let k = kept_part-IsKept value minimum es in
      pay_at_least minimum value _ _ (kept_work value minimum es) hv
        (le_trans (mul-le-mul_left value (rw total_weight-reverse at k.within)) hm)
        (kept-IsWorth value minimum (reverse es) _ k (reverse-IsRising es hf))

  split_sorted-length : length (split_sorted value minimum es) ≤ length es
  unfolding split_sorted kept_part
  split_sorted-length =
      let k = kept_part-IsKept value minimum es in
      omega (
        arith,
        pay-length value ((kept_part value minimum es).0)
            (reverse ((kept_part value minimum es).1)),
        k.fewer,
        length-reverse es,
        length-reverse ((kept_part value minimum es).1),
      )

module _ (entries : List Entry) (value minimum max_outputs : ℕ) where
  considered : List Entry
  considered = take max_outputs (sort_entries entries)

  considered_weight : total_weight considered ≤ total_weight entries
  unfolding considered
  considered_weight = omega (
    arith,
    total_weight-take max_outputs (sort_entries entries),
    total_weight-sort_entries entries,
  )

  -- A split never pays more than the value, whatever the weights and limits are.
  pub split_with-le : total_sats (split_with entries value minimum max_outputs) ≤ value
  unfolding split_with
  split_with-le =
      ground (arith, split_sorted-le value minimum (take max_outputs (sort_entries entries)))

  -- For a value and a window whose product a u128 holds, a split writes no output or pays
  -- exactly the value: nothing is left over.
  pub split_with_all :
      value < 2 ^ 64
      → value * total_weight entries ≤ u128_max
      → (split_with entries value minimum max_outputs ≡ [])
        ⊎ (total_sats (split_with entries value minimum max_outputs) ≡ value)
  unfolding split_with considered
  split_with_all hv hm = ground (
    arith,
    split_sorted_all value minimum (take max_outputs (sort_entries entries)) hv
        (le_trans (mul-le-mul_left value considered_weight) hm),
  )

  -- Under the same bound, no output is under the minimum.
  pub split_with_least :
      value < 2 ^ 64
      → value * total_weight entries ≤ u128_max
      → All (λ p. minimum ≤ p.sats) (split_with entries value minimum max_outputs)
  unfolding split_with considered
  split_with_least hv hm = ground (
    arith,
    split_sorted_least value minimum (take max_outputs (sort_entries entries)) hv
        (le_trans (mul-le-mul_left value considered_weight) hm)
        (take-IsFalling max_outputs _ (sort_entries-IsFalling entries)),
  )

  -- A split writes at most `max_outputs` outputs.
  pub split_with-length : length (split_with entries value minimum max_outputs) ≤ max_outputs
  unfolding split_with
  split_with-length = ground (
    arith,
    split_sorted-length value minimum (take max_outputs (sort_entries entries)),
    length-take max_outputs (sort_entries entries),
  )

-- For a fee of at most the unit, the fee and the miners' share are the value of a u64,
-- and the fee is that many basis points of it, rounded down.
pub fee_on-add-miners_share :
    (p : SplitPolicy) (value : ℕ)
    → p.fee_bps ≤ 10_000
    → value < 2 ^ 64
    → (fee_on p value + miners_share p value ≡ value)
      × (fee_on p value ≡ value * p.fee_bps / 10_000)
unfolding fee_on miners_share basis_points_of
fee_on-add-miners_share p value hb hv = omega (arith, mul-le-mul_left value hb)
