-- ===== src/Ledger/Split/Amounts.antt =====
-- What the loop that pays hands out: never more than it has, all of it when there is work and no
-- product saturates, and to each entry at least what its weight is worth at the start.
use ratum.Base.{
  length, ℕ, ◌+◌, ◌-◌, ◌*◌, ◌/◌, ◌%◌, ◌^◌, ◌≤◌, ◌<◌, ◌≡◌, ap, ◌∙◌, List, [], ◌∷◌, arith, All,
}
use native.Mathlib.Nat.{
  div-mul-le_self, mul_comm, mod-le, div-le_of_le-mul, mul-le-mul_left, mul-le-mul_right,
  le_of_mul-le-mul_right, le_trans, mul-div_cancel, mul-le-mul, mod-eq_of_lt, le-div_iff_mul-le,
}
use native.Mathlib.Decide.{dec_lt}
use ratum.Ledger.Split.{Entry, total_weight, saturating_mul, u128_max, amount_of, pay, total_sats}

-- A share of a part of the work is at most the value.
pub quotient-le : (left w work : ℕ) → w ≤ work → saturating_mul left w / work ≤ left
quotient-le left w work h =
    div-le_of_le-mul work (omega (arith, mul-le-mul_left left h, mul_comm left work))

pub amount-le : (left w work : ℕ) → w ≤ work → amount_of left w work ≤ left
amount-le left w work h = le_trans (mod-le _ (2 ^ 64)) (quotient-le left w work h)

pub pay-le :
    (left work : ℕ) (es : List Entry)
    → work ≡ total_weight es
    → total_sats (pay left work es) ≤ left
unfolding pay
pay-le left work [] h = omega arith
pay-le left work ((a, w) ∷ es) h = ground (
  arith,
  amount-le left w work (omega arith),
  pay-le (left - amount_of left w work) (work - w) es (omega arith),
)

-- Where the value is a u64 and the product does not saturate, an amount is the plain quotient.
pub amount-eq :
    (left w work : ℕ)
    → w ≤ work
    → left < 2 ^ 64
    → left * w ≤ u128_max
    → amount_of left w work ≡ left * w / work
amount-eq left w work h hl hm =
    ap (λ (t : ℕ). t / work % 2 ^ 64) smaller
    ∙ mod-eq_of_lt (omega (arith, quotient-le left w work h, ap (λ (t : ℕ). t / work) smaller))
  where
    smaller : saturating_mul left w ≡ left * w
    smaller = omega arith

pay_total :
    (left work : ℕ) (e : Entry) (es : List Entry)
    → 0 < work
    → total_sats (pay left work (e ∷ es))
      ≡ amount_of left (e.1) work
        + total_sats (pay (left - amount_of left (e.1) work) (work - e.1) es)
unfolding pay
pay_total left work e es h = ground arith

-- Everything is handed out.
pub pay_all :
    (left work : ℕ) (es : List Entry)
    → work ≡ total_weight es
    → 0 < work
    → left < 2 ^ 64
    → left * work ≤ u128_max
    → total_sats (pay left work es) ≡ left
pay_all left work [] h pos hl hm = absurd (omega arith)
pay_all left work ((a, w) ∷ es) h pos hl hm =
    pay_total left work (a, w) es pos
    ∙ go
        (λ more.
          pay_all (left - amount_of left w work) (work - w) es sum_of_rest more (omega arith)
            (le_trans (mul-le-mul (omega arith) (omega arith)) hm))
        (dec_lt 0 (work - w))
  where
    sum_of_rest : work - w ≡ total_weight es
    sum_of_rest = omega arith

    below : amount_of left w work ≤ left
    below = amount-le left w work (omega arith)

    go :
        (0 < work - w
          → total_sats (pay (left - amount_of left w work) (work - w) es)
            ≡ left - amount_of left w work)
        → Dec (0 < work - w)
        → amount_of left w work + total_sats (pay (left - amount_of left w work) (work - w) es)
          ≡ left
    go ih (yes more) = omega (arith, below, ih more)
    go ih (no last) = omega (
      arith,
      amount-eq left w work (omega arith) hl (le_trans (mul-le-mul_left left (omega arith)) hm),
      ap (λ (t : ℕ). left * t / work) w_is_work,
      mul-div_cancel left pos,
      pay-le (left - amount_of left w work) (work - w) es sum_of_rest,
    )
      where
        w_is_work : w ≡ work
        w_is_work = omega arith

-- What an entry is worth stays its worth as the entries before it are paid: `rest` of the value is
-- left for `part` of the work, and no less than in proportion.
worth_kept :
    (minimum left work part rest w : ℕ)
    → 0 < work
    → left * part ≤ rest * work
    → minimum * work ≤ left * w
    → minimum * part ≤ rest * w
worth_kept minimum left work part rest w pos h k =
    le_of_mul-le-mul_right (omega (arith, mul-le-mul_right part k, mul-le-mul_right w h)) pos

-- Every entry is worth the minimum: its share of the value, had it not been rounded, reaches it.
abbrev pub IsWorth : ℕ → ℕ → ℕ → List Entry → Type 0
IsWorth minimum left work es = All (λ e. minimum * work ≤ left * e.1) es

IsWorth-kept :
    (minimum left work part rest : ℕ) (es : List Entry)
    → 0 < work
    → left * part ≤ rest * work
    → IsWorth minimum left work es
    → IsWorth minimum rest part es
IsWorth-kept minimum left work part rest [] pos h k = tt
IsWorth-kept minimum left work part rest (e ∷ es) pos h k = (
  worth_kept minimum left work part rest (e.1) pos h k.0,
  IsWorth-kept minimum left work part rest es pos h k.1,
)

-- Rounding an amount down leaves the rest no less than its proportion.
proportion :
    (left work w amount part rest : ℕ)
    → left ≡ amount + rest
    → work ≡ w + part
    → amount * work ≤ left * w
    → left * part ≤ rest * work
proportion left work w amount part rest e f h = omega (
  arith,
  ap (λ (t : ℕ). t * part) e,
  ap (λ (t : ℕ). rest * t) f,
  ap (λ (t : ℕ). amount * t) f,
  ap (λ (t : ℕ). t * w) e,
)

-- No output is under the minimum.
pub pay_at_least :
    (minimum left work : ℕ) (es : List Entry)
    → work ≡ total_weight es
    → left < 2 ^ 64
    → left * work ≤ u128_max
    → IsWorth minimum left work es
    → All (λ p. minimum ≤ p.sats) (pay left work es)
unfolding pay
pay_at_least minimum left work [] h hl hm k = tt
pay_at_least minimum left work ((a, w) ∷ es) h hl hm k = ground (
  arith,
  below,
  head,
  λ (pos : 0 < work).
      pay_at_least minimum (left - amount_of left w work) (work - w) es (omega arith) (omega arith)
        (le_trans (mul-le-mul (omega arith) (omega arith)) hm)
        (IsWorth-kept minimum left work (work - w) (left - amount_of left w work) es pos
          (proportion left work w (amount_of left w work) (work - w) (left - amount_of left w work)
            (omega (arith, below)) (omega arith) (share pos))
          k.1),
)
  where
    below : amount_of left w work ≤ left
    below = amount-le left w work (omega arith)

    exact : amount_of left w work ≡ left * w / work
    exact =
        amount-eq left w work (omega arith) hl (le_trans (mul-le-mul_left left (omega arith)) hm)

    share : 0 < work → amount_of left w work * work ≤ left * w
    share pos = rw exact (div-mul-le_self (left * w) work)

    head : 0 < work → minimum ≤ amount_of left w work
    head pos = rw exact ((le-div_iff_mul-le pos).1 k.0)

pub pay-length : (left work : ℕ) (es : List Entry) → length (pay left work es) ≤ length es
unfolding pay
pay-length left work [] = omega arith
pay-length left work ((a, w) ∷ es) =
    ground (arith, pay-length (left - amount_of left w work) (work - w) es)
