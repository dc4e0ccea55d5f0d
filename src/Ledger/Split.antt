-- ===== src/Ledger/Split.antt =====
-- prime/src/ledger/split.rs: dividing a block's value over the window, the operator fee taken
-- first and then the amounts that the weights give, under a minimum and an output count.
--
-- Work is a u128 and a value a u64. A sum of work is written without its wrap at 2^128; the
-- window's invariant bounds it far below. `saturating_mul` is written out. An identity is the
-- bytes of its name, which is what `str` compares.
pub mod Amounts
pub mod Kept
pub mod Payouts
use Prim.Native.Nat.{compare, Ordering}
use mathlib.Core.List.{reverse}
use ratum.Datum.Messages.Coinbaser.{max_coinbaser_outputs}
use ratum.Base.{
  ℕ, ◌%◌, zero, suc, ◌+◌, ◌-◌, ◌*◌, ◌/◌, ◌^◌, min, List, [], ◌∷◌, ◌++◌, Bool, true, false, ◌||◌,
  ltb, leb, ◌==◌, if◌then◌else◌, take,
}

abbrev pub Name : Type 0
Name = List ℕ

pub record Payout : Type 0 where
  pub identity : Name
  pub sats : ℕ

-- The P2PKH dust threshold.
abbrev pub min_payout : ℕ
min_payout = 546

abbrev pub basis_points_per_unit : ℕ
basis_points_per_unit = 10_000

pub record SplitPolicy : Type 0 where
  pub fee_bps : ℕ

abbrev pub u128_max : ℕ
u128_max = 2 ^ 128 - 1

abbrev pub saturating_mul : ℕ → ℕ → ℕ
saturating_mul a b = min (a * b) u128_max

unfoldable pub basis_points_of : ℕ → ℕ → ℕ
basis_points_of work bps = saturating_mul work bps / basis_points_per_unit

-- `SplitPolicy::fee_on`, whose cast to u64 wraps, and `SplitPolicy::miners_share`.
unfoldable pub fee_on : SplitPolicy → ℕ → ℕ
fee_on p value = basis_points_of value p.fee_bps % 2 ^ 64

unfoldable pub miners_share : SplitPolicy → ℕ → ℕ
miners_share p value = value - fee_on p value

-- An identity and its weight.
abbrev pub Entry : Type 0
Entry = Name × ℕ

abbrev pub total_weight : List Entry → ℕ
total_weight [] = 0
total_weight ((_, w) ∷ es) = w + total_weight es

-- `a.cmp(b)` of two strings, as "a is after b".
unfoldable pub name_after : Name → Name → Bool
name_after [] b = false
name_after (x ∷ a) [] = true
name_after (x ∷ a) (y ∷ b) = elim (compare x y) [
  | Ordering.lt ↦ false
  | Ordering.gt ↦ true
  | Ordering.eq ↦ name_after a b
]

-- `most_work_first(a, b)` is `Greater`: `a` belongs behind `b`.
unfoldable pub behind : Entry → Entry → Bool
behind (a, a_work) (b, b_work) = elim (compare b_work a_work) [
  | Ordering.lt ↦ false
  | Ordering.gt ↦ true
  | Ordering.eq ↦ name_after a b
]

-- `sort_by`, which is stable: an entry goes before the first that does not belong before it.
unfoldable pub insert_entry : Entry → List Entry → List Entry
insert_entry e [] = e ∷ []
insert_entry e (x ∷ xs) = if behind e x then x ∷ insert_entry e xs else e ∷ x ∷ xs

unfoldable pub sort_entries : List Entry → List Entry
sort_entries [] = []
sort_entries (e ∷ es) = insert_entry e (sort_entries es)

-- The `while let Some(w) = entries.last()` loop, on the entries back to front, so that `last` and
-- `pop` are at the head: what is left of the work and of the entries.
unfoldable pub prune : ℕ → ℕ → ℕ → List Entry → ℕ × List Entry
prune value minimum work [] = (work, [])
prune value minimum work ((a, w) ∷ es) =
    let popped = prune value minimum (work - w) es in
    if work == 0
    then (work, [])
    else if leb minimum (saturating_mul value w / work)
    then (work, (a, w) ∷ es)
    else popped

-- `(u128::from(left).saturating_mul(w) / work) as u64`.
abbrev pub amount_of : ℕ → ℕ → ℕ → ℕ
amount_of left w work = saturating_mul left w / work % 2 ^ 64

-- The loop that hands out what is left of the value; an amount of zero writes no output.
unfoldable pub pay : ℕ → ℕ → List Entry → List Payout
pay left work [] = []
pay left work ((a, w) ∷ es) =
    let rest = pay (left - amount_of left w work) (work - w) es in
    if work == 0
    then []
    else if amount_of left w work == 0
    then rest
    else record { identity = a; sats = amount_of left w work } ∷ rest

-- The entries that a split considers, most work first, and the amounts over those it keeps.
unfoldable pub split_sorted : ℕ → ℕ → List Entry → List Payout
split_sorted value minimum entries =
    let (work, kept) = prune value minimum (total_weight entries) (reverse entries) in
    pay value work (reverse kept)

-- `Weights::split_with`.
unfoldable pub split_with : List Entry → ℕ → ℕ → ℕ → List Payout
split_with entries value minimum max_outputs =
    if total_weight entries == 0 || value == 0 || max_outputs == 0
    then []
    else split_sorted value minimum (take max_outputs (sort_entries entries))

-- `Weights::split`.
unfoldable pub split : List Entry → ℕ → List Payout
split entries value = split_with entries value min_payout max_coinbaser_outputs

abbrev pub total_sats : List Payout → ℕ
total_sats [] = 0
total_sats (p ∷ ps) = p.sats + total_sats ps
