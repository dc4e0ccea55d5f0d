-- ===== src/Tests/Accounting.antt =====
-- Claimed hashes and scaled amounts at fixed inputs.
use ratum.Base.{◌+◌, ◌-◌, ◌≤◌, ◌≡◌, ◌^◌, refl, arith, List, [], ◌∷◌, false, min}
use ratum.Ledger.Split.{Payout, SplitPolicy, total_sats, fee_on}
use ratum.Accounting.{AcceptedShareHashes, hold, unpaid_entries}
use ratum.Accounting.Held.{Op, holding, releasing, steps, hold-once}
use ratum.Accounting.Owed.{unpaid_entries-le}

abbrev one_hash : AcceptedShareHashes
one_hash = record {
  accepted_at = (7, 1000) ∷ [];
  order = (1000, 7) ∷ [];
  capacity = 4;
  warned_capped = false;
}

abbrev others : List Op
others = holding 8 2000 2000 ∷ releasing 8 ∷ holding 9 3000 3000 ∷ []

hold-once_example : (hold (steps others one_hash) 7 15_000 15_000).0 ≡ false
hold-once_example =
    hold-once others one_hash 7 1000 15_000 15_000 refl (omega arith)
      (omega arith, (λ e. absurd (omega (arith, e)), (omega arith, tt))) (omega arith)

abbrev left_out : List Payout
left_out =
    record { identity = 97 ∷ []; sats = 700 } ∷ record { identity = 98 ∷ []; sats = 600 } ∷ []

abbrev policy : SplitPolicy
policy = record { fee_bps = 100 }

unpaid_entries-le_example :
    total_sats (unpaid_entries policy 9000 1000 left_out)
    ≤ 1000 - fee_on policy (min (9000 + 1000) (2 ^ 64 - 1))
unpaid_entries-le_example = unpaid_entries-le policy 9000 1000 left_out (omega arith)
