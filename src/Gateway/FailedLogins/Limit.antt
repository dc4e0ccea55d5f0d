-- ===== src/Gateway/FailedLogins/Limit.antt =====
-- What the limit keeps.
use ratum.Base.{
  ℕ, ◌+◌, ◌-◌, ◌%◌, ◌^◌, ◌<◌, ◌≤◌, ◌≡◌, refl, arith, [], ◌∷◌, length, Option, none, some, Bool,
  true, false, leb, if◌then◌else◌, inl, inr, err, Bool-cases,
}
use ratum.Base.Dict.{
  find, put, remove, retain, length-remove, length-remove_held, length-retain, length-put,
  length-put_held, contains_key, find-contains_key,
}
use ratum.Gateway.FailedLogins.{
  FailedLogins, Failures, check, check_at, compare_at, fail_at, track, drop_oldest, oldest_of,
  is_live, max_tracked_addresses, max_failures, failure_window,
}

oldest_of-contains_key :
    (e : ℕ × Failures) (d : FailedLogins) → contains_key (e ∷ d) (oldest_of e d) ≡ true
unfolding oldest_of
oldest_of-contains_key e [] = ground arith
oldest_of-contains_key e (x ∷ xs) =
    ground (arith, oldest_of-contains_key e xs, oldest_of-contains_key x xs)

drop_oldest-length : (held : FailedLogins) → length (drop_oldest held) ≤ length held - 1
unfolding drop_oldest
drop_oldest-length [] = omega arith
drop_oldest-length (e ∷ d) =
    omega (arith, length-remove_held (e ∷ d) (oldest_of e d) (oldest_of-contains_key e d))

track-length :
    (held : FailedLogins) (ip now : ℕ)
    → length held ≤ max_tracked_addresses
    → length (track held ip now) ≤ max_tracked_addresses
unfolding track
track-length held ip now h = elim (Bool-cases (leb max_tracked_addresses (length held))) [
  | inl full ↦
      rw full (room (retain (is_live now) held) (omega (arith, length-retain (is_live now) held)))
  | inr some_room ↦ rw some_room (room held h)
]
  where
    first : Failures
    first = record { window_start = now; count = 1 }

    room :
        (live : FailedLogins)
        → length live ≤ max_tracked_addresses
        → length (
            put
              (if leb max_tracked_addresses (length live) then drop_oldest live else live)
              ip
              first)
          ≤ max_tracked_addresses
    room live k = elim (Bool-cases (leb max_tracked_addresses (length live))) [
      | inl full ↦
          rw full (omega (arith, length-put (drop_oldest live) ip first, drop_oldest-length live))
      | inr below ↦ rw below (ground (arith, length-put live ip first))
    ]

fail_at-length :
    (held : FailedLogins) (ip now : ℕ) (o : Option Failures)
    → find held ip ≡ o
    → length held ≤ max_tracked_addresses
    → length (fail_at held ip now o) ≤ max_tracked_addresses
unfolding fail_at
fail_at-length held ip now none e h = track-length held ip now h
fail_at-length held ip now (some f) e h = omega (
  arith,
  length-put_held held ip (record f { count = (f.count + 1) % 2 ^ 32 })
      (find-contains_key held ip f e),
)

compare_at-length :
    (held : FailedLogins) (ip now : ℕ) (valid : Bool)
    → length held ≤ max_tracked_addresses
    → length ((compare_at held ip now valid).1) ≤ max_tracked_addresses
unfolding compare_at
compare_at-length held ip now true h = h
compare_at-length held ip now false h = fail_at-length held ip now (find held ip) refl h

check_at-length :
    (held : FailedLogins) (ip now : ℕ) (valid : Bool) (o : Option Failures)
    → length held ≤ max_tracked_addresses
    → length ((check_at held ip now valid o).1) ≤ max_tracked_addresses
unfolding check_at
check_at-length held ip now valid none h = compare_at-length held ip now valid h
check_at-length held ip now valid (some f) h = ground (
  arith,
  h,
  compare_at-length held ip now valid h,
  compare_at-length (remove held ip) ip now valid (omega (arith, length-remove held ip)),
)

-- The addresses held at once stay within the limit: a check that finds at most 1024 of them leaves
-- at most 1024, whichever way it ends.
pub check-length :
    (held : FailedLogins) (ip now : ℕ) (valid : Bool)
    → length held ≤ max_tracked_addresses
    → length ((check held ip now valid).1) ≤ max_tracked_addresses
unfolding check
check-length held ip now valid h = check_at-length held ip now valid (find held ip) h

-- An address over its limit is refused without its credentials being compared: within the window
-- that ten failures were counted in, a check answers the time left and changes nothing, whatever
-- the credentials are.
pub check_over_limit :
    (held : FailedLogins) (ip now : ℕ) (valid : Bool) (f : Failures)
    → find held ip ≡ some f
    → max_failures ≤ f.count
    → now - f.window_start < failure_window
    → check held ip now valid ≡ (err (failure_window - (now - f.window_start)), held)
unfolding check check_at
check_over_limit held ip now valid f e hc hw = rw e (ground arith)
