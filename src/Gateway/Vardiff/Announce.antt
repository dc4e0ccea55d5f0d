-- ===== src/Gateway/Vardiff/Announce.antt =====
-- What a notify serves.
use ratum.Base.{ℕ, ◌≤◌, ◌≡◌, refl, arith, Option, none, some, Bool, true, false}
use ratum.Gateway.Vardiff.{
  NotifyDifficulty, Vardiff, on_notify, mark_sent, adjust_on_notify, adjust_to_rate, halve, double,
  reset_snapshot, ms_per_share, at_rate, serve,
}

adjust_to_rate-last_sent :
    (v : Vardiff) (rate now : ℕ) → (adjust_to_rate v rate now).last_sent ≡ v.last_sent
unfolding adjust_to_rate halve double reset_snapshot
adjust_to_rate-last_sent v rate now = ground arith

at_rate-last_sent :
    (v : Vardiff) (now : ℕ) (rate : Option ℕ) → (at_rate v now rate).last_sent ≡ v.last_sent
unfolding at_rate
at_rate-last_sent v now none = refl
at_rate-last_sent v now (some rate) = adjust_to_rate-last_sent v rate now

pub adjust_on_notify-last_sent :
    (v : Vardiff) (now : ℕ) → (adjust_on_notify v now).last_sent ≡ v.last_sent
unfolding adjust_on_notify halve reset_snapshot
adjust_on_notify-last_sent v now = ground (arith, at_rate-last_sent v now (ms_per_share v now))

abbrev pub Served : ℕ → ℕ → NotifyDifficulty × Vardiff → Type 0
Served last_sent floor r =
    ((r.1).current ≡ (r.0).diff)
    × ((r.1).last_sent ≡ (r.0).diff)
    × (floor ≤ (r.0).diff)
    × ((r.0).announce ≡ none → (r.0).diff ≡ last_sent)
    × ((d : ℕ) → (r.0).announce ≡ some d → d ≡ (r.0).diff)

serve-Served :
    (v : Vardiff) (floor last_sent : ℕ) (quickdiff : Bool)
    → v.last_sent ≡ last_sent
    → Served last_sent floor (serve v floor quickdiff)
unfolding serve mark_sent
serve-Served v floor last_sent quickdiff h = ground arith

-- A notify serves the difficulty it leaves: the current and the last sent difficulty are both the
-- one served, which is no lower than the floor; nothing is announced only when that is the
-- difficulty sent before, and what is announced is what is served.
pub on_notify-Served :
    (v : Vardiff) (floor : ℕ) (quickdiff : Bool) (now : ℕ)
    → Served v.last_sent floor (on_notify v floor quickdiff now)
unfolding on_notify
on_notify-Served v floor true now = serve-Served v floor v.last_sent true refl
on_notify-Served v floor false now =
    serve-Served (adjust_on_notify v now) floor v.last_sent false (adjust_on_notify-last_sent v now)
