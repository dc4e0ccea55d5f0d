-- ===== src/Gateway/FailedLogins/Attempts.antt =====
-- How often one address can guess in its window.
use ratum.Base.{
  ℕ, ◌+◌, ◌-◌, ◌%◌, ◌^◌, ◌<◌, ◌≤◌, ◌≡◌, ◌≢◌, ◌⊎◌, refl, sym, ap, subst, ◌∙◌, arith, List, [], ◌∷◌,
  length, Option, none, some, Bool, true, false, ◌==◌, leb, if◌then◌else◌, inl, inr, ok, err,
  Result, Bool-cases, All,
}
use ratum.Base.Dict.{
  find, put, remove, length-put, length-remove, find-put, find-put_ne, find-remove_ne,
}
use ratum.Gateway.FailedLogins.{
  FailedLogins, Failures, check, check_at, compare_at, fail_at, track, max_tracked_addresses,
  max_failures, failure_window,
}

-- A check that some address asks for.
pub record Attempt : Type 0 where
  pub ip : ℕ
  pub now : ℕ
  pub valid : Bool

abbrev pub is_wrong : Result ℕ Bool → ℕ
is_wrong (ok true) = 0
is_wrong (ok false) = 1
is_wrong (err left) = 0

-- The attempts of an address that are compared and found wrong.
unfoldable pub wrong : ℕ → FailedLogins → List Attempt → ℕ
wrong ip held [] = 0
wrong ip held (a ∷ attempts) =
    let answer = check held a.ip a.now a.valid in
    (if a.ip == ip then is_wrong (answer.0) else 0) + wrong ip (answer.1) attempts

-- The failures counted for an address, in a window that began at a time or later.
abbrev pub tried : Option Failures → ℕ
tried none = 0
tried (some f) = f.count

abbrev pub Since : ℕ → Option Failures → Type 0
Since from none = Unit
Since from (some f) = from ≤ f.window_start

-- Another address's attempt, or one within the window from a time.
abbrev pub Timely : ℕ → ℕ → Attempt → Type 0
Timely ip from a = (a.ip ≢ ip) ⊎ ((from ≤ a.now) × (a.now - from < failure_window))

track-room :
    (held : FailedLogins) (ip now : ℕ)
    → length held < max_tracked_addresses
    → track held ip now ≡ put held ip (record { window_start = now; count = 1 })
unfolding track
track-room held ip now h = rw (free (length held) h, free (length held) h) refl
  where
    free : (n : ℕ) → n < max_tracked_addresses → leb max_tracked_addresses n ≡ false
    free n l = ground (arith, l)

-- What an attempt of another address leaves of this one's failures.
record Apart (ip : ℕ) (held after : FailedLogins) : Type 0 where
  pub same : find after ip ≡ find held ip
  pub grown : length after ≤ 1 + length held

fail_at-Apart :
    (ip : ℕ) (held : FailedLogins) (k now : ℕ) (o : Option Failures)
    → k ≢ ip
    → length held < max_tracked_addresses
    → Apart ip held (fail_at held k now o)
unfolding fail_at
fail_at-Apart ip held k now none n h = rw (track-room held k now h) (record {
  same = find-put_ne held k ip _ n;
  grown = omega (arith, length-put held k (record { window_start = now; count = 1 }));
})
fail_at-Apart ip held k now (some f) n h = record {
  same = find-put_ne held k ip _ n;
  grown = omega (arith, length-put held k (record f { count = (f.count + 1) % 2 ^ 32 }));
}

compare_at-Apart :
    (ip : ℕ) (held : FailedLogins) (k now : ℕ) (valid : Bool)
    → k ≢ ip
    → length held < max_tracked_addresses
    → Apart ip held ((compare_at held k now valid).1)
unfolding compare_at
compare_at-Apart ip held k now true n h = record { same = refl; grown = omega arith }
compare_at-Apart ip held k now false n h = fail_at-Apart ip held k now (find held k) n h

check_at-Apart :
    (ip : ℕ) (held : FailedLogins) (k now : ℕ) (valid : Bool) (o : Option Failures)
    → k ≢ ip
    → length held < max_tracked_addresses
    → Apart ip held ((check_at held k now valid o).1)
unfolding check_at
check_at-Apart ip held k now valid none n h = compare_at-Apart ip held k now valid n h
check_at-Apart ip held k now valid (some f) n h =
    elim (Bool-cases (leb failure_window (now - f.window_start))) [
      | inl over ↦ rw over (
          let removed =
            compare_at-Apart ip (remove held k) k now valid n
              (omega (arith, length-remove held k, h)) in
          record {
            same = removed.same ∙ find-remove_ne held k ip n;
            grown = omega (arith, removed.grown, length-remove held k);
          })
      | inr still ↦ rw still (elim (Bool-cases (leb max_failures f.count)) [
        | inl limited ↦ rw limited (record { same = refl; grown = omega arith })
        | inr free ↦ rw free (compare_at-Apart ip held k now valid n h)
      ])
    ]

-- What an attempt of the address itself counts: each wrong answer once, up to the limit.
record Counts (ip from : ℕ) (held after : FailedLogins) (guess : ℕ) : Type 0 where
  pub count : tried (find after ip) ≡ tried (find held ip) + guess
  pub limit : tried (find after ip) ≤ max_failures
  pub since : Since from (find after ip)
  pub grown : length after ≤ 1 + length held

module _ (ip from now : ℕ) (held : FailedLogins) (room : length held < max_tracked_addresses)
    (early : from ≤ now) (within : now - from < failure_window) where
  -- The failures found after a put.
  put-Counts :
      (o : Option Failures) (f : Failures)
      → find held ip ≡ o
      → f.count ≡ tried o + 1
      → f.count ≤ max_failures
      → from ≤ f.window_start
      → Counts ip from held (put held ip f) 1
  put-Counts o f e c l s =
      let found = find-put held ip f in
      record {
        count = ap tried found ∙ c ∙ ap (λ x. tried x + 1) (sym e);
        limit = omega (arith, ap tried found, l);
        since = subst (Since from) (sym found) s;
        grown = omega (arith, length-put held ip f);
      }

  fail_at-Counts :
      (o : Option Failures)
      → find held ip ≡ o
      → tried o < max_failures
      → Since from o
      → Counts ip from held (fail_at held ip now o) 1
  unfolding fail_at
  fail_at-Counts none e l s =
      rw (track-room held ip now room)
        (put-Counts none (record { window_start = now; count = 1 }) e refl (omega arith) early)
  fail_at-Counts (some f) e l s =
      put-Counts (some f) (record f { count = (f.count + 1) % 2 ^ 32 }) e (omega (arith, l))
        (omega (arith, l)) s

  unchanged :
      tried (find held ip) ≤ max_failures → Since from (find held ip) → Counts ip from held held 0
  unchanged l s = record { count = omega arith; limit = l; since = s; grown = omega arith }

  compare_at-Counts :
      (valid : Bool) (o : Option Failures)
      → find held ip ≡ o
      → tried o < max_failures
      → Since from o
      → Counts ip from held
          ((compare_at held ip now valid).1)
          (is_wrong ((compare_at held ip now valid).0))
  unfolding compare_at
  compare_at-Counts true o e l s =
      unchanged (omega (arith, ap tried e, l)) (subst (Since from) (sym e) s)
  compare_at-Counts false o e l s =
      subst (λ (x : Option Failures). Counts ip from held (fail_at held ip now x) 1) (sym e)
        (fail_at-Counts o e l s)

  check_at-Counts :
      (valid : Bool) (o : Option Failures)
      → find held ip ≡ o
      → tried o ≤ max_failures
      → Since from o
      → Counts ip from held
          ((check_at held ip now valid o).1)
          (is_wrong ((check_at held ip now valid o).0))
  unfolding check_at
  check_at-Counts valid none e l s = compare_at-Counts valid none e (omega arith) s
  check_at-Counts valid (some f) e l s =
      rw (live f.window_start s) (elim (Bool-cases (leb max_failures f.count)) [
        | inl limited ↦
            rw limited (unchanged (omega (arith, ap tried e, l)) (subst (Since from) (sym e) s))
        | inr free ↦ rw free (compare_at-Counts valid (some f) e (ground (arith, free)) s)
      ])
    where
      live : (start : ℕ) → from ≤ start → leb failure_window (now - start) ≡ false
      live start h = ground (arith, within, h)

attempt-Counts :
    (ip from : ℕ) (held : FailedLogins) (k now : ℕ) (valid : Bool)
    → (k ≢ ip) ⊎ ((from ≤ now) × (now - from < failure_window))
    → length held < max_tracked_addresses
    → Since from (find held ip)
    → tried (find held ip) ≤ max_failures
    → Counts ip from held
        ((check held k now valid).1)
        (if k == ip then is_wrong ((check held k now valid).0) else 0)
unfolding check
attempt-Counts ip from held k now valid t r s l = elim (Bool-cases (k == ip)) [
  | inl own ↦ rw own (
      subst
        (λ (k : ℕ).
          Counts ip from held ((check_at held k now valid (find held k)).1)
            (is_wrong ((check_at held k now valid (find held k)).0)))
        (sym (is_own own))
        (check_at-Counts ip from now held r (early own t).0 (early own t).1 valid (find held ip)
          refl l s))
  | inr other ↦
      rw other (
        others (check_at-Apart ip held k now valid (find held k) (λ e. ground (arith, other, e)) r))
]
  where
    is_own : (k == ip) ≡ true → k ≡ ip
    is_own e = ground (arith, e)

    early :
        (k == ip) ≡ true
        → (k ≢ ip) ⊎ ((from ≤ now) × (now - from < failure_window))
        → (from ≤ now) × (now - from < failure_window)
    early own (inl n) = absurd (n (is_own own))
    early own (inr w) = w

    others : {after : FailedLogins} → Apart ip held after → Counts ip from held after 0
    others a = record {
      count = ap tried a.same ∙ omega arith;
      limit = omega (arith, ap tried a.same, l);
      since = subst (Since from) (sym a.same) s;
      grown = a.grown;
    }

-- An address is limited in its guesses: over any attempts, by it and by others, all its own
-- within the window from a time that its failures were counted since, and too few to fill the
-- table of addresses, those found wrong and the failures counted before never total more than the
-- limit, when those before do not.
pub wrong-le :
    (ip from : ℕ) (held : FailedLogins) (attempts : List Attempt)
    → Since from (find held ip)
    → tried (find held ip) ≤ max_failures
    → length held + length attempts ≤ max_tracked_addresses
    → All (Timely ip from) attempts
    → tried (find held ip) + wrong ip held attempts ≤ max_failures
unfolding wrong check
wrong-le ip from held [] s l r t = omega (arith, l)
wrong-le ip from held (a ∷ attempts) s l r t =
    let one = attempt-Counts ip from held a.ip a.now a.valid t.0 (omega (arith, r)) s l in
    let rest =
      wrong-le ip from ((check held a.ip a.now a.valid).1) attempts one.since one.limit
        (omega (arith, r, one.grown)) t.1 in
    omega (arith, one.count, rest)
