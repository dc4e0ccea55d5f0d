-- ===== src/Ledger/Blocks/Rows.antt =====
-- prime/src/ledger/blocks.rs, the records and the rows that they are stored in; the separator of
-- two names is that of prime/src/ledger/db.rs.
--
-- The bits of a float and of a signed count are numbers of 64 bits. `utf8_lossy` is the standard
-- library's `from_utf8_lossy` on a string's bytes.
pub mod RoundTrip
use ratum.Base.{
  ℕ, zero, suc, ◌+◌, ◌<◌, ◌^◌, List, [], ◌∷◌, ◌++◌, Option, none, some, Bool, true, false, ◌==◌,
  ltb, if◌then◌else◌, length, Result, ok, err,
}
use ratum.Base.Bytes.{le_bytes, cast}
use ratum.Reader.{
  truncated_itself, Truncated, ByteReader, Read, ◌>>=◌, ◌>>◌, pure, new, run, take_bytes, arr,
  advance, u16, u32, u64, get_le,
}
use ratum.Ledger.Split.{Name, Payout, total_sats}

pub record OwedBlock : Type 0 where
  pub found_at : ℕ
  pub height : ℕ
  pub block_hash : List ℕ
  pub settled_at : Option ℕ
  pub entries : List Payout

unfoldable pub total : OwedBlock → ℕ
total o = total_sats o.entries

pub record ConfirmationReading : Type 0 where
  pub checked_at : ℕ
  pub confirmations : ℕ

pub record FoundBlock : Type 0 where
  pub found_at : ℕ
  pub height : ℕ
  pub block_hash : List ℕ
  pub paid_to_split : ℕ
  pub paid_to_pool : ℕ
  pub finder : Name
  pub tag_secondary : List ℕ
  pub network_difficulty : ℕ
  pub cumulative_work : ℕ

-- `settled_at.unwrap_or(0)` and `(settled != 0).then_some(settled)`.
abbrev pub settled_field : Option ℕ → ℕ
settled_field none = 0
settled_field (some s) = s

unfoldable pub field_settled : ℕ → Option ℕ
field_settled s = if s == 0 then none else some s

unfoldable pub pack_entries : List Payout → List ℕ
pack_entries [] = []
pack_entries (p ∷ ps) =
    le_bytes 2 (cast 2 (length p.identity))
    ++ (p.identity ++ (le_bytes 8 p.sats ++ pack_entries ps))

unfoldable pub pack_owed : OwedBlock → List ℕ
pack_owed o =
    le_bytes 8 o.found_at
    ++ (le_bytes 4 o.height
        ++ (le_bytes 8 (total o)
            ++ (le_bytes 8 (settled_field o.settled_at)
                ++ (le_bytes 2 (cast 2 (length o.entries)) ++ pack_entries o.entries))))

-- `.ok()`, and the key's conversion to an array before the row is read.
unfoldable pub to_option : {A : Type 0} → Result Truncated A → Option A
to_option (ok a) = some a
to_option (err e) = none

unfoldable pub keyed : {A : Type 0} → List ℕ → Option A → Option A
keyed hash row = if length hash == 32 then row else none

abbrev pub name_separator : ℕ
name_separator = 0

unfoldable pub before_separator : List ℕ → List ℕ
before_separator [] = []
before_separator (b ∷ bs) =
    let rest = before_separator bs in if b == name_separator then [] else b ∷ rest

unfoldable pub after_separator : List ℕ → List ℕ
after_separator [] = []
after_separator (b ∷ bs) = let rest = after_separator bs in if b == name_separator then bs else rest

-- `split_at_separator`.
abbrev pub split_at_separator : List ℕ → List ℕ × List ℕ
split_at_separator rest = (before_separator rest, after_separator rest)

unfoldable pub pack_block : FoundBlock → List ℕ
pack_block b =
    le_bytes 8 b.found_at
    ++ (le_bytes 4 b.height
        ++ (le_bytes 8 b.paid_to_split
            ++ (le_bytes 8 b.paid_to_pool
                ++ (le_bytes 8 b.network_difficulty
                    ++ (le_bytes 16 b.cumulative_work
                        ++ (b.finder ++ (name_separator ∷ b.tag_secondary)))))))

unfoldable pub pack_confirmations : ConfirmationReading → List ℕ
pack_confirmations c = le_bytes 8 c.checked_at ++ le_bytes 8 c.confirmations

unfoldable pub read_confirmations : List ℕ → Read Truncated (List ℕ × ConfirmationReading)
read_confirmations hash = do
  checked_at ← u64 "checked_at"
  confirmations ← get_le 8 "confirmations"
  pure (hash, record { checked_at = checked_at; confirmations = confirmations })

unfoldable pub unpack_confirmations : List ℕ → List ℕ → Option (List ℕ × ConfirmationReading)
unpack_confirmations hash row = keyed hash (to_option (run (read_confirmations hash) (new row)))

module _ (utf8_lossy : List ℕ → List ℕ) where
  unfoldable pub read_entries : ℕ → Read Truncated (List Payout)
  read_entries zero = pure []
  read_entries (suc count) = do
    len ← u16 "identity length"
    identity ← take_bytes len "identity"
    sats ← u64 "sats"
    rest ← read_entries count
    pure (record { identity = utf8_lossy identity; sats = sats } ∷ rest)

  unfoldable pub read_owed : List ℕ → Read Truncated OwedBlock
  read_owed hash = do
    found_at ← u64 "found_at"
    height ← u32 "height"
    advance 8 "total"
    settled ← u64 "settled_at"
    count ← u16 "entry count"
    entries ← read_entries count
    pure (record {
      found_at = found_at;
      height = height;
      block_hash = hash;
      settled_at = field_settled settled;
      entries = entries;
    })

  unfoldable pub unpack_owed : List ℕ → List ℕ → Option OwedBlock
  unpack_owed hash row = keyed hash (to_option (run (read_owed hash) (new row)))

  -- `c.rest()` is what the fields leave.
  abbrev pub rest_of : Read Truncated (List ℕ)
  rest_of c = ok (c.rest, c)

  unfoldable pub read_block : List ℕ → Read Truncated FoundBlock
  read_block hash = do
    found_at ← u64 "found_at"
    height ← u32 "height"
    paid_to_split ← u64 "paid_to_split"
    paid_to_pool ← u64 "paid_to_pool"
    network_difficulty ← get_le 8 "network difficulty"
    cumulative_work ← get_le 16 "cumulative work"
    names ← rest_of
    pure (record {
      found_at = found_at;
      height = height;
      block_hash = hash;
      paid_to_split = paid_to_split;
      paid_to_pool = paid_to_pool;
      finder = utf8_lossy (split_at_separator names).0;
      tag_secondary = utf8_lossy (split_at_separator names).1;
      network_difficulty = network_difficulty;
      cumulative_work = cumulative_work;
    })

  unfoldable pub unpack_block : List ℕ → List ℕ → Option FoundBlock
  unpack_block hash row = keyed hash (to_option (run (read_block hash) (new row)))
