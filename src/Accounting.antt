-- ===== src/Accounting.antt =====
-- prime/src/accounting.rs: the hashes of the shares accepted, and what a found block's coinbase
-- leaves owed.
--
-- A hash is a number, times are seconds in 64 bits. The loop that drops the oldest hashes is on the
-- order itself; it stops at an empty order, which a capacity of 1 at the least never reaches.
pub mod Held
pub mod Owed
use ratum.Base.{
  ℕ, ◌+◌, ◌-◌, ◌*◌, ◌/◌, ◌%◌, ◌^◌, min, max, List, [], ◌∷◌, ◌++◌, Option, none, some, Bool, true,
  false, ◌||◌, ◌&&◌, not, ◌==◌, ltb, leb, if◌then◌else◌, length,
}
use ratum.Base.Dict.{Dict, find, put, remove, contains_key}
use ratum.Ledger.Record.{accepted_hash_retention_secs}
use ratum.Ledger.Split.{Payout, total_sats, SplitPolicy, fee_on}

pub record AcceptedShareHashes : Type 0 where
  pub accepted_at : Dict ℕ
  pub order : List (ℕ × ℕ)
  pub capacity : ℕ
  pub warned_capped : Bool

unfoldable pub new : ℕ → AcceptedShareHashes
new capacity = record {
  accepted_at = [];
  order = [];
  capacity = max capacity 1;
  warned_capped = false;
}

abbrev pub is_at : Option ℕ → ℕ → Bool
is_at none at = false
is_at (some t) at = t == at

-- `forget`: whether the hash was held at that time, and what is left.
unfoldable pub forget : Dict ℕ → ℕ → ℕ → Bool × Dict ℕ
forget d at hash = if is_at (find d hash) at then (true, remove d hash) else (false, d)

-- The last second in which a hash accepted at a time is held.
abbrev pub held_until : ℕ → ℕ
held_until at = min (at + accepted_hash_retention_secs) (2 ^ 64 - 1)

unfoldable pub expire : ℕ → Dict ℕ → List (ℕ × ℕ) → Dict ℕ × List (ℕ × ℕ)
expire now d [] = (d, [])
expire now d ((at, hash) ∷ order) =
    let rest = expire now ((forget d at hash).1) order in
    if leb now (held_until at) then (d, (at, hash) ∷ order) else rest

-- The loop before an insertion: whether a held hash was forgotten, the hashes and the order left.
unfoldable pub make_room : ℕ → Bool → Dict ℕ → List (ℕ × ℕ) → Bool × Dict ℕ × List (ℕ × ℕ)
make_room capacity early d [] = (early, d, [])
make_room capacity early d ((at, hash) ∷ order) =
    let rest = make_room capacity (early || (forget d at hash).0) ((forget d at hash).1) order in
    if leb capacity (length ((at, hash) ∷ order)) then rest else (early, d, (at, hash) ∷ order)

-- `hold` once the order has room.
unfoldable pub held :
    AcceptedShareHashes → ℕ → ℕ → Bool × Dict ℕ × List (ℕ × ℕ) → AcceptedShareHashes
held s hash at room = record s {
  accepted_at = put room.1 hash at;
  order = room.2 ++ ((at, hash) ∷ []);
  warned_capped = s.warned_capped || room.0;
}

unfoldable pub hold : AcceptedShareHashes → ℕ → ℕ → ℕ → Bool × AcceptedShareHashes
hold s hash at now =
    let left = expire now s.accepted_at s.order in
    if contains_key (left.0) hash
    then (false, record s { accepted_at = left.0; order = left.1 })
    else (true, held s hash at (make_room s.capacity false (left.0) (left.1)))

unfoldable pub insert : AcceptedShareHashes → ℕ → ℕ → Bool × AcceptedShareHashes
insert s hash now = hold s hash now now

unfoldable pub restore : AcceptedShareHashes → ℕ → ℕ → ℕ → Bool × AcceptedShareHashes
restore s hash at now = hold s hash at now

unfoldable pub release : AcceptedShareHashes → ℕ → Bool × AcceptedShareHashes
release s hash =
    (contains_key s.accepted_at hash, record s { accepted_at = remove s.accepted_at hash })

-- `record_unpaid_outputs`: what is owed for the outputs that a coinbase left out, scaled down to
-- what the pool's script received beyond the fee. The sum of the amounts wraps at 2^64.
unfoldable pub scale : ℕ → ℕ → List Payout → List Payout
scale available dictated [] = []
scale available dictated (p ∷ ps) =
    let rest = scale available dictated ps in
    if p.sats * available / dictated % 2 ^ 64 == 0
    then rest
    else record p { sats = p.sats * available / dictated % 2 ^ 64 } ∷ rest

unfoldable pub unpaid_entries : SplitPolicy → ℕ → ℕ → List Payout → List Payout
unpaid_entries policy paid_to_split paid_to_pool unpaid =
    let fee = fee_on policy (min (paid_to_split + paid_to_pool) (2 ^ 64 - 1)) in
    let available = paid_to_pool - fee in
    let dictated = total_sats unpaid % 2 ^ 64 in
    if ltb available dictated then scale available dictated unpaid else unpaid
