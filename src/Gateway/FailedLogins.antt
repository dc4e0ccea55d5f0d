-- ===== src/Gateway/FailedLogins.antt =====
-- gateway/src/api/auth.rs: the limit on the failed attempts that one remote address may make, and
-- the comparison of passwords.
--
-- An address is a number, an instant a number of nanoseconds, `valid` what the closure would
-- answer. The map's order decides between addresses whose windows started together, as the order
-- of a `HashMap` does. A string is the list of its bytes.
pub mod Limit
pub mod Attempts
use ratum.Base.{
  ℕ, zero, suc, ◌+◌, ◌-◌, ◌*◌, ◌%◌, ◌^◌, max, List, [], ◌∷◌, Option, none, some, Bool, true, false,
  ◌==◌, ltb, leb, if◌then◌else◌, length, Result, ok, err,
}
use ratum.Base.Bits.{bit_or, bit_xor}
use ratum.Base.Dict.{Dict, find, put, remove, retain}

abbrev pub max_failures : ℕ
max_failures = 10

abbrev pub failure_window : ℕ
failure_window = 60 * 1_000_000_000

abbrev pub max_tracked_addresses : ℕ
max_tracked_addresses = 1024

pub record Failures : Type 0 where
  pub window_start : ℕ
  pub count : ℕ

abbrev pub FailedLogins : Type 0
FailedLogins = Dict Failures

-- The window has not ended.
abbrev pub is_live : ℕ → Failures → Bool
is_live now f = ltb (now - f.window_start) failure_window

-- `min_by_key(|(_, f)| f.window_start)`: the first of the addresses whose windows started first.
unfoldable pub oldest_of : ℕ × Failures → FailedLogins → ℕ
oldest_of e [] = e.0
oldest_of e (x ∷ xs) =
    let kept = oldest_of e xs in
    let taken = oldest_of x xs in if ltb (x.1).window_start (e.1).window_start then taken else kept

unfoldable pub drop_oldest : FailedLogins → FailedLogins
drop_oldest [] = []
drop_oldest (e ∷ held) = remove (e ∷ held) (oldest_of e held)

-- What follows a failure from an address that is not held.
unfoldable pub track : FailedLogins → ℕ → ℕ → FailedLogins
track held ip now =
    let live =
      if leb max_tracked_addresses (length held) then retain (is_live now) held else held in
    let room = if leb max_tracked_addresses (length live) then drop_oldest live else live in
    put room ip (record { window_start = now; count = 1 })

-- A failure of the address.
unfoldable pub fail_at : FailedLogins → ℕ → ℕ → Option Failures → FailedLogins
fail_at held ip now none = track held ip now
fail_at held ip now (some f) = put held ip (record f { count = (f.count + 1) % 2 ^ 32 })

-- The credentials are compared.
unfoldable pub compare_at : FailedLogins → ℕ → ℕ → Bool → Result ℕ Bool × FailedLogins
compare_at held ip now valid =
    if valid then (ok true, held) else (ok false, fail_at held ip now (find held ip))

unfoldable pub check_at :
    FailedLogins → ℕ → ℕ → Bool → Option Failures → Result ℕ Bool × FailedLogins
check_at held ip now valid none = compare_at held ip now valid
check_at held ip now valid (some f) =
    if leb failure_window (now - f.window_start)
    then compare_at (remove held ip) ip now valid
    else if leb max_failures f.count
    then (err (failure_window - (now - f.window_start)), held)
    else compare_at held ip now valid

-- `FailedLogins::check`, with the map that it leaves.
unfoldable pub check : FailedLogins → ℕ → ℕ → Bool → Result ℕ Bool × FailedLogins
check held ip now valid = check_at held ip now valid (find held ip)

abbrev pub byte_at : List ℕ → ℕ → ℕ
byte_at [] i = 0
byte_at (x ∷ xs) zero = x
byte_at (x ∷ xs) (suc i) = byte_at xs i

-- The loop of `secure_eq`, from index `i` on.
unfoldable pub accumulate : (rounds i acc : ℕ) → List ℕ → List ℕ → ℕ
accumulate zero i acc a b = acc
accumulate (suc rounds) i acc a b =
    accumulate rounds (i + 1) (bit_or acc (bit_xor (byte_at a i) (byte_at b i))) a b

unfoldable pub secure_eq : List ℕ → List ℕ → Bool
secure_eq a b = accumulate (max (length a) (length b)) 0 (bit_xor (length a) (length b)) a b == 0
