-- ===== src/Gateway/Vardiff.antt =====
-- gateway/src/vardiff.rs: the difficulty of one connection, adjusted by the rate of its shares.
--
-- An `Instant` is a number of nanoseconds, `saturating_duration_since` the subtraction of ℕ, and
-- `now` an argument. A u64 is a number below 2^64: `+=` and `<<` are written modulo 2^64.
pub mod Announce
pub mod Steps
use ratum.Base.{
  ℕ, ◌+◌, ◌-◌, ◌*◌, ◌/◌, ◌%◌, ◌^◌, min, max, Option, none, some, Bool, true, false, not, ◌&&◌, ◌||◌,
  ◌==◌, ltb, leb, if◌then◌else◌,
}
use ratum.Target.{pow2_floor}

abbrev pub ms_per_second : ℕ
ms_per_second = 1000

abbrev pub ms_per_minute : ℕ
ms_per_minute = ms_per_second * 60

abbrev pub min_sample_ms : ℕ
min_sample_ms = ms_per_second

abbrev pub rate_tolerance : ℕ
rate_tolerance = 2

abbrev pub min_quickdiff_shift : ℕ
min_quickdiff_shift = 2

abbrev pub min_shares_to_double : ℕ
min_shares_to_double = 16

abbrev pub u64_max : ℕ
u64_max = 2 ^ 64 - 1

pub record NotifyDifficulty : Type 0 where
  pub announce : Option ℕ
  pub diff : ℕ

pub record VardiffParams : Type 0 where
  pub min_diff : ℕ
  pub target_shares_min : ℕ
  pub quickdiff_count : ℕ
  pub quickdiff_delta : ℕ

pub record Vardiff : Type 0 where
  pub params : VardiffParams
  pub current : ℕ
  pub last_sent : ℕ
  pub quickdiff_active : Bool
  pub quickdiff_value : ℕ
  pub shares_since_snapshot : ℕ
  pub snapshot_at : ℕ

unfoldable pub new : VardiffParams → ℕ → Vardiff
new p now = record {
  params = p;
  current = p.min_diff;
  last_sent = 0;
  quickdiff_active = false;
  quickdiff_value = 0;
  shares_since_snapshot = 0;
  snapshot_at = now;
}

unfoldable pub reset_snapshot : Vardiff → ℕ → Vardiff
reset_snapshot v now = record v { shares_since_snapshot = 0; snapshot_at = now }

-- `mark_sent`, which also returns the current difficulty.
unfoldable pub mark_sent : Vardiff → Vardiff
mark_sent v =
    let c = if v.current == 0 then v.params.min_diff else v.current in
    record v { current = c; last_sent = c }

unfoldable pub target_ms : Vardiff → ℕ
target_ms v = ms_per_minute / max v.params.target_shares_min 1

unfoldable pub change_pending : Vardiff → Bool
change_pending v = not (v.current == v.last_sent)

unfoldable pub elapsed_ms : Vardiff → ℕ → ℕ
elapsed_ms v now = (now - v.snapshot_at) / 1000000 % 2 ^ 64

unfoldable pub ms_per_share : Vardiff → ℕ → Option ℕ
ms_per_share v now =
    let n = v.shares_since_snapshot in
    let delta = elapsed_ms v now in
    if (n == 0) || ltb delta min_sample_ms then none else some (max (delta / n) 1)

unfoldable pub halve : Vardiff → ℕ → Vardiff
halve v now = reset_snapshot (record v { current = max (v.current / 2) v.params.min_diff }) now

-- `self.current <<= 1` and the snapshot after it.
unfoldable pub double : Vardiff → ℕ → Vardiff
double v now = reset_snapshot (record v { current = v.current * 2 % 2 ^ 64 }) now

unfoldable pub adjust_to_rate : Vardiff → ℕ → ℕ → Vardiff
adjust_to_rate v rate now =
    let target = target_ms v in
    if ltb (target * rate_tolerance) rate
    then halve v now
    else if leb min_shares_to_double v.shares_since_snapshot && ltb rate (target / rate_tolerance)
    then double v now
    else v

-- The adjustment by a measured rate, when there is one.
unfoldable pub at_rate : Vardiff → ℕ → Option ℕ → Vardiff
at_rate v now none = v
at_rate v now (some rate) = adjust_to_rate v rate now

unfoldable pub adjust_on_notify : Vardiff → ℕ → Vardiff
adjust_on_notify v now =
    if change_pending v
    then v
    else if v.shares_since_snapshot == 0
    then (if ltb ms_per_minute (elapsed_ms v now) then halve v now else v)
    else at_rate v now (ms_per_share v now)

abbrev pub saturating_mul : ℕ → ℕ → ℕ
saturating_mul a b = min (a * b) u64_max

unfoldable pub quick_raise : Vardiff → ℕ → ℕ → Vardiff
quick_raise v rate now =
    let factor = target_ms v / rate in
    let raw = saturating_mul factor v.current in
    reset_snapshot
      (record v {
        current = max (max (pow2_floor raw) 1) (v.current * 2 ^ min_quickdiff_shift % 2 ^ 64);
      })
      now

-- `adjust_on_share` once enough shares are counted.
unfoldable pub share_at_rate : Vardiff → ℕ → Option ℕ → Bool × Vardiff
share_at_rate v now none = (false, v)
share_at_rate v now (some rate) =
    if not v.quickdiff_active && ltb rate (target_ms v / max v.params.quickdiff_delta 1)
    then (true, quick_raise v rate now)
    else (false, adjust_to_rate v rate now)

unfoldable pub adjust_on_share : Vardiff → ℕ → Bool × Vardiff
adjust_on_share v now =
    if change_pending v || ltb v.shares_since_snapshot v.params.quickdiff_count
    then (false, v)
    else share_at_rate v now (ms_per_share v now)

unfoldable pub on_share_accepted : Vardiff → ℕ → Bool × Vardiff
on_share_accepted v now =
    adjust_on_share (record v { shares_since_snapshot = (v.shares_since_snapshot + 1) % 2 ^ 64 })
      now

-- `on_notify` after its adjustment.
unfoldable pub serve : Vardiff → ℕ → Bool → NotifyDifficulty × Vardiff
serve v floor quickdiff =
    let held = record v { current = max v.current floor } in
    let changed = not (held.last_sent == held.current) in
    let sent = if changed then mark_sent held else held in
    let told : Option ℕ = if changed then some sent.current else none in
    (
      record { announce = told; diff = sent.last_sent },
      record sent {
        quickdiff_active = quickdiff;
        quickdiff_value = if quickdiff then sent.last_sent else sent.quickdiff_value;
      },
    )

unfoldable pub on_notify : Vardiff → ℕ → Bool → ℕ → NotifyDifficulty × Vardiff
on_notify v floor quickdiff now =
    serve (if not quickdiff then adjust_on_notify v now else v) floor quickdiff
