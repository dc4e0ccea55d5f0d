-- ===== src/Gateway/Vardiff/Steps.antt =====
-- What one event does to the difficulty of a connection.
use ratum.Base.{
  ℕ, ◌+◌, ◌*◌, ◌/◌, ◌%◌, ◌^◌, ◌≤◌, ◌<◌, ◌≡◌, ◌≢◌, refl, arith, max, Option, none, some, Bool, true,
  false, ◌⊎◌, inl, inr,
}
use ratum.Gateway.Vardiff.{
  Vardiff, on_notify, on_share_accepted, adjust_on_share, share_at_rate, quick_raise, mark_sent,
  adjust_on_notify, adjust_to_rate, halve, double, reset_snapshot, change_pending, ms_per_share,
  at_rate, serve,
}

-- The three outcomes of an adjustment that is not a quick raise: left alone, halved but not below
-- the minimum, or doubled.
abbrev Adjusted : Vardiff → Vardiff → Type 0
Adjusted v w =
    (w.current ≡ v.current)
    ⊎ ((w.current ≡ max (v.current / 2) v.params.min_diff) ⊎ (w.current ≡ v.current * 2))

adjust_to_rate-Adjusted :
    (v : Vardiff) (rate now : ℕ) → v.current < 2 ^ 62 → Adjusted v (adjust_to_rate v rate now)
unfolding adjust_to_rate halve double reset_snapshot
adjust_to_rate-Adjusted v rate now h = ground arith

-- A share that finds a change pending is counted, and changes nothing else.
pub on_share_accepted_pending :
    (v : Vardiff) (now : ℕ)
    → v.current ≢ v.last_sent
    → on_share_accepted v now
      ≡ (false, record v { shares_since_snapshot = (v.shares_since_snapshot + 1) % 2 ^ 64 })
unfolding on_share_accepted adjust_on_share change_pending
on_share_accepted_pending v now h = ground (arith, h)

quick_raise-at_least :
    (v : Vardiff) (rate now : ℕ)
    → v.current < 2 ^ 62
    → v.current * 4 ≤ (quick_raise v rate now).current
unfolding quick_raise reset_snapshot
quick_raise-at_least v rate now h = omega arith

-- What a counted share leaves, with the answer it gave.
abbrev pub AfterShare : Vardiff → Bool × Vardiff → Type 0
AfterShare v r =
    ((r.0 ≡ true) × (v.current * 4 ≤ (r.1).current)) ⊎ ((r.0 ≡ false) × Adjusted v (r.1))

share_at_rate-AfterShare :
    (v : Vardiff) (now : ℕ) (rate : Option ℕ)
    → v.current < 2 ^ 62
    → AfterShare v (share_at_rate v now rate)
unfolding share_at_rate
share_at_rate-AfterShare v now none h = inr (refl, inl refl)
share_at_rate-AfterShare v now (some rate) h =
    ground (arith, quick_raise-at_least v rate now h, adjust_to_rate-Adjusted v rate now h)

-- An accepted share moves the difficulty in one of four ways, below 2^62: it answers true and at
-- least quadruples it, or it answers false and leaves it alone, halves it without going below the
-- minimum, or doubles it.
pub on_share_accepted-AfterShare :
    (v : Vardiff) (now : ℕ) → v.current < 2 ^ 62 → AfterShare v (on_share_accepted v now)
unfolding on_share_accepted adjust_on_share
on_share_accepted-AfterShare v now h =
    let counted = record v { shares_since_snapshot = (v.shares_since_snapshot + 1) % 2 ^ 64 } in
    ground (arith, share_at_rate-AfterShare counted now (ms_per_share counted now) h)

at_rate-Adjusted :
    (v : Vardiff) (now : ℕ) (rate : Option ℕ) → v.current < 2 ^ 62 → Adjusted v (at_rate v now rate)
unfolding at_rate
at_rate-Adjusted v now none h = inl refl
at_rate-Adjusted v now (some rate) h = adjust_to_rate-Adjusted v rate now h

adjust_on_notify-Adjusted :
    (v : Vardiff) (now : ℕ) → v.current < 2 ^ 62 → Adjusted v (adjust_on_notify v now)
unfolding adjust_on_notify halve reset_snapshot
adjust_on_notify-Adjusted v now h = ground (arith, at_rate-Adjusted v now (ms_per_share v now) h)

-- The events of a connection.
pub data Event : Type 0 where
  notify : (floor : ℕ) (quickdiff : Bool) (now : ℕ) → Event
  share : (now : ℕ) → Event

abbrev pub step : Vardiff → Event → Vardiff
step v (notify floor quickdiff now) = (on_notify v floor quickdiff now).1
step v (share now) = (on_share_accepted v now).1

adjust_to_rate-params :
    (v : Vardiff) (rate now : ℕ) → (adjust_to_rate v rate now).params.min_diff ≡ v.params.min_diff
unfolding adjust_to_rate halve double reset_snapshot
adjust_to_rate-params v rate now = ground arith

at_rate-params :
    (v : Vardiff) (now : ℕ) (rate : Option ℕ)
    → (at_rate v now rate).params.min_diff ≡ v.params.min_diff
unfolding at_rate
at_rate-params v now none = refl
at_rate-params v now (some rate) = adjust_to_rate-params v rate now

adjust_on_notify-params :
    (v : Vardiff) (now : ℕ) → (adjust_on_notify v now).params.min_diff ≡ v.params.min_diff
unfolding adjust_on_notify halve reset_snapshot
adjust_on_notify-params v now = ground (arith, at_rate-params v now (ms_per_share v now))

share_at_rate-params :
    (v : Vardiff) (now : ℕ) (rate : Option ℕ)
    → ((share_at_rate v now rate).1).params.min_diff ≡ v.params.min_diff
unfolding share_at_rate quick_raise reset_snapshot
share_at_rate-params v now none = refl
share_at_rate-params v now (some rate) = ground (arith, adjust_to_rate-params v rate now)

on_share_accepted-params :
    (v : Vardiff) (now : ℕ) → ((on_share_accepted v now).1).params.min_diff ≡ v.params.min_diff
unfolding on_share_accepted adjust_on_share
on_share_accepted-params v now =
    let counted = record v { shares_since_snapshot = (v.shares_since_snapshot + 1) % 2 ^ 64 } in
    ground (arith, share_at_rate-params counted now (ms_per_share counted now))

-- A vardiff at or above its minimum.
abbrev pub IsAbove : ℕ → Vardiff → Type 0
IsAbove minimum v = (v.params.min_diff ≡ minimum) × (minimum ≤ v.current)

serve-IsAbove :
    (minimum floor : ℕ) (v : Vardiff) (quickdiff : Bool)
    → IsAbove minimum v
    → IsAbove minimum ((serve v floor quickdiff).1)
unfolding serve mark_sent
serve-IsAbove minimum floor v quickdiff h = ground arith

-- A notify or an accepted share that finds the difficulty below 2^62 and at or above the
-- configured minimum leaves it at or above the minimum, and the minimum as it was.
pub step-IsAbove :
    (minimum : ℕ) (v : Vardiff) (e : Event)
    → v.current < 2 ^ 62
    → IsAbove minimum v
    → IsAbove minimum (step v e)
unfolding on_notify
step-IsAbove minimum v (notify floor true now) hm h = serve-IsAbove minimum floor v true h
step-IsAbove minimum v (notify floor false now) hm h =
    serve-IsAbove minimum floor (adjust_on_notify v now) false
      (ground (arith, h, adjust_on_notify-params v now, adjust_on_notify-Adjusted v now hm))
step-IsAbove minimum v (share now) hm h =
    ground (arith, h, on_share_accepted-params v now, on_share_accepted-AfterShare v now hm)
