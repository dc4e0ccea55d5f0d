-- ===== src/Tests/Pool.antt =====
-- A block's value divided over a small window.
use ratum.Base.{◌≡◌, ◌≤◌, ◌⊎◌, arith, List, [], ◌∷◌, All}
use ratum.Ledger.Split.{Entry, SplitPolicy, split_with, total_sats, min_payout}
use ratum.Ledger.Split.Payouts.{split_with-le, split_with_all, split_with_least}

abbrev entries : List Entry
entries = (98 ∷ [], 300) ∷ (97 ∷ [], 600) ∷ (99 ∷ [], 1) ∷ []

split_with-le_example : total_sats (split_with entries 100_000 min_payout 1024) ≤ 100_000
split_with-le_example = split_with-le entries 100_000 min_payout 1024

split_with_all_example :
    (split_with entries 100_000 min_payout 1024 ≡ [])
    ⊎ (total_sats (split_with entries 100_000 min_payout 1024) ≡ 100_000)
split_with_all_example = split_with_all entries 100_000 min_payout 1024 (omega arith) (omega arith)

split_with_least_example :
    All (λ p. min_payout ≤ p.sats) (split_with entries 100_000 min_payout 1024)
split_with_least_example =
    split_with_least entries 100_000 min_payout 1024 (omega arith) (omega arith)

abbrev policy : SplitPolicy
policy = record { fee_bps = 150 }
