-- ===== src/Gateway/SeenShares/Table.antt =====
-- What an insertion keeps.
use ratum.Base.{ℕ, ◌-◌, ◌≤◌, ◌<◌, ◌≡◌, arith, false, leb, length}
use ratum.Base.Dict.{length-put, length-retain, contains_key-put}
use ratum.Gateway.SeenShares.{SeenShareHashes, insert, make_room, min_capacity}

-- The table holds no more hashes than its capacity, which is at least the least one.
abbrev pub Within : SeenShareHashes → Type 0
Within s = (length s.seen ≤ s.capacity) × (min_capacity ≤ s.capacity)

make_room-Within :
    (s : SeenShareHashes) (now : ℕ)
    → Within s
    → (length (make_room s now).seen < (make_room s now).capacity)
      × (min_capacity ≤ (make_room s now).capacity)
unfolding make_room
make_room-Within s now h =
    ground (arith, h, length-retain (λ created. leb (now - created) s.window) s.seen)

-- The table stays within its capacity: an insertion into a table that holds at most its capacity,
-- 1024 at the least, leaves one that does, since a full table frees hashes or grows first.
pub insert-Within :
    (s : SeenShareHashes) (h created now : ℕ) → Within s → Within ((insert s h created now).1)
unfolding insert
insert-Within s h created now w = ground (
  arith,
  w,
  make_room-Within s now w,
  length-put s.seen h created,
  length-put (make_room s now).seen h created,
)

-- A hash is accepted once: right after an insertion of it, whatever that one answered, inserting it
-- again answers false and changes nothing.
pub insert_again :
    (s : SeenShareHashes) (h created again now later : ℕ)
    → insert ((insert s h created now).1) h again later ≡ (false, (insert s h created now).1)
unfolding insert
insert_again s h created again now later =
    ground
      (arith, contains_key-put s.seen h created, contains_key-put (make_room s now).seen h created)
