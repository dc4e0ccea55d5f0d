-- ===== src/Gateway/SeenShares.antt =====
-- gateway/src/seen_shares.rs: the hashes of the shares already accepted.
--
-- A hash is a number, an instant a number of nanoseconds, and `created.elapsed()` is measured from
-- an argument `now`.
pub mod Table
use ratum.Base.{ℕ, ◌+◌, ◌-◌, ◌*◌, ◌/◌, max, Bool, true, false, ltb, leb, if◌then◌else◌, length, []}
use ratum.Base.Dict.{Dict, put, retain, contains_key}

abbrev pub min_capacity : ℕ
min_capacity = 1024

abbrev pub min_freed_percent : ℕ
min_freed_percent = 5

abbrev pub growth_percent : ℕ
growth_percent = 25

pub record SeenShareHashes : Type 0 where
  pub seen : Dict ℕ
  pub capacity : ℕ
  pub window : ℕ

unfoldable pub new : ℕ → ℕ → SeenShareHashes
new capacity window = record { seen = []; capacity = max capacity min_capacity; window = window }

-- A full table drops the stale shares, and grows when that frees too little.
unfoldable pub make_room : SeenShareHashes → ℕ → SeenShareHashes
make_room s now =
    let kept = retain (λ created. leb (now - created) s.window) s.seen in
    let freed = length s.seen - length kept in
    record s {
      seen = kept;
      capacity =
          if ltb freed (s.capacity * min_freed_percent / 100)
          then s.capacity + s.capacity * growth_percent / 100
          else s.capacity;
    }

unfoldable pub insert : SeenShareHashes → ℕ → ℕ → ℕ → Bool × SeenShareHashes
insert s h job_created_at now =
    if contains_key s.seen h
    then (false, s)
    else let room = if leb s.capacity (length s.seen) then make_room s now else s in
      (true, record room { seen = put room.seen h job_created_at })
