-- ===== src/Tests/Difficulty.antt =====
-- Difficulties of one connection at fixed values.
use ratum.Base.{refl, arith, false}
use ratum.Gateway.Vardiff.{VardiffParams, Vardiff}
use ratum.Gateway.Vardiff.Steps.{IsAbove, step, notify, step-IsAbove}

abbrev parameters : VardiffParams
parameters = record {
  min_diff = 16384;
  target_shares_min = 8;
  quickdiff_count = 8;
  quickdiff_delta = 8;
}

-- A connection that was sent its difficulty and took seven shares in two seconds.
abbrev warm : Vardiff
warm = record {
  params = parameters;
  current = 65536;
  last_sent = 65536;
  quickdiff_active = false;
  quickdiff_value = 0;
  shares_since_snapshot = 7;
  snapshot_at = 0;
}

abbrev fresh : Vardiff
fresh = record warm { last_sent = 0 }

step-IsAbove_example : IsAbove 16384 (step warm (notify 0 false 90_000_000_000))
step-IsAbove_example =
    step-IsAbove 16384 warm (notify 0 false 90_000_000_000) (omega arith) (refl, omega arith)
