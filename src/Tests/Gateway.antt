-- ===== src/Tests/Gateway.antt =====
-- The gateway's tables at fixed values.
use ratum.Base.{ℕ, ◌+◌, ◌≤◌, ◌≡◌, refl, arith, List, [], ◌∷◌, true, false, inl, inr}
use ratum.Gateway.FailedLogins.{
  FailedLogins, check, check_at, compare_at, fail_at, track, secure_eq, accumulate,
}
use ratum.Gateway.FailedLogins.Attempts.{Attempt, wrong, wrong-le}
use ratum.Gateway.SeenShares.{SeenShareHashes, insert}
use ratum.Gateway.SeenShares.Table.{Within, insert-Within}

abbrev held : FailedLogins
held =
    (7, record { window_start = 1000; count = 8 })
    ∷ (8, record { window_start = 0; count = 2 })
    ∷ []

abbrev guess : ℕ → ℕ → Attempt
guess ip now = record { ip = ip; now = now; valid = false }

-- Address 7 guesses four times, and others in between.
abbrev attempts : List Attempt
attempts =
    guess 7 2000
    ∷ guess 9 61_000_000_000
    ∷ guess 7 3000
    ∷ guess 7 4000
    ∷ guess 8 70_000_000_000
    ∷ guess 7 5000
    ∷ []

wrong_run : wrong 7 held attempts ≡ 2
unfolding wrong check check_at compare_at fail_at track
wrong_run = refl

wrong-le_example : 8 + wrong 7 held attempts ≤ 10
wrong-le_example = wrong-le 7 1000 held attempts (omega arith) (omega arith) (omega arith) (
  inr (omega arith, omega arith),
  (
    inl (λ e. omega (arith, e)),
    (
      inr (omega arith, omega arith),
      (
        inr (omega arith, omega arith),
        (inl (λ e. omega (arith, e)), (inr (omega arith, omega arith), tt)),
      ),
    ),
  ),
)

secure_eq_run : secure_eq (1 ∷ 2 ∷ []) (1 ∷ 2 ∷ []) ≡ true
unfolding secure_eq accumulate
secure_eq_run = refl

secure_eq_longer_run : secure_eq (1 ∷ 2 ∷ []) (1 ∷ 2 ∷ 0 ∷ []) ≡ false
unfolding secure_eq accumulate
secure_eq_longer_run = refl

abbrev table : SeenShareHashes
table = record { seen = (3, 10) ∷ []; capacity = 1024; window = 60 }

insert-Within_example : Within ((insert table 4 20 30).1)
insert-Within_example = insert-Within table 4 20 30 (omega arith, omega arith)
