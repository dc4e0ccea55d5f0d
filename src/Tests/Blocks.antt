-- ===== src/Tests/Blocks.antt =====
-- The block records over a database that holds its rows as a function, at fixed inputs.
use ratum.Base.{
  ℕ, ◌≡◌, refl, arith, List, [], ◌∷◌, Option, none, some, ◌&&◌, not, same_bytes, if◌then◌else◌,
  replicate, some_inj, sym, ap,
}
use ratum.Ledger.Blocks.Rows.{total, OwedBlock, FoundBlock, pack_owed, pack_block, unpack_owed}
use ratum.Ledger.Blocks.Rows.RoundTrip.{FitsOwed, FitsEntry, unpack_owed-pack_owed}
use ratum.Ledger.Blocks.{
  Table, DbApi, BlockRecords, block, owed_block, is_some, record_block, record_owed, settle_owed,
  void_block, put, settle_found, remove_rows, write, remove_from,
}
use ratum.Ledger.Blocks.Stored.{Laws, IsStored, same_table, record_block-IsStored}
use ratum.Ledger.Blocks.Settled.{IsSettled, settle_owed-IsSettled}
use ratum.Ledger.Blocks.Recorded.{record_owed-IsStored}
use ratum.Ledger.Blocks.Void.{IsVoided, void_block-IsVoided}

abbrev Rows : Type 0
Rows = Table → List ℕ → Option (List ℕ)

abbrev rows_api : DbApi Rows Rows
rows_api = record {
  begin_write = λ db. some db;
  insert = λ w t k v. some (λ u j. if same_table t u && same_bytes k j then some v else w u j);
  remove = λ w t k. some (λ u j. if same_table t u && same_bytes k j then none else w u j);
  commit = λ w. some w;
  row = λ db u j. db u j;
  txn_row = λ w u j. w u j;
}

rows_api-Laws : Laws rows_api
rows_api-Laws = record {
  begun = λ db w u j e. ap (λ d. d u j) (sym (some_inj e));
  inserted = λ w w' t u k j v e. ap (λ d. d u j) (sym (some_inj e));
  removed = λ w w' t u k j e. ap (λ d. d u j) (sym (some_inj e));
  committed = λ w db u j e. ap (λ d. d u j) (sym (some_inj e));
}

abbrev hash : List ℕ
hash = replicate 32 7

abbrev found : FoundBlock
found = record {
  found_at = 100;
  height = 9;
  block_hash = hash;
  paid_to_split = 50;
  paid_to_pool = 3;
  finder = 97 ∷ [];
  tag_secondary = [];
  network_difficulty = 1;
  cumulative_work = 12;
}

abbrev owes : OwedBlock
owes = record {
  found_at = 100;
  height = 9;
  block_hash = hash;
  settled_at = none;
  entries = record { identity = 98 ∷ []; sats = 600 } ∷ [];
}

abbrev no_records : BlockRecords Rows
no_records = record { db = some (λ t k. none); blocks = []; owed = []; confirmations = λ h. none }

no_records-IsStored : IsStored rows_api no_records
unfolding block owed_block
no_records-IsStored = record { blocks = tt; owed = tt; mirrors = λ h. (refl, refl, refl) }

-- One block, with what it is owed, and the row of each.
abbrev one_block : BlockRecords Rows
one_block = record {
  db = some (λ u j.
      if same_table Table.blocks_table u && same_bytes hash j
      then some (pack_block found)
      else none);
  blocks = found ∷ [];
  owed = [];
  confirmations = λ h. none;
}

one_block_recorded : record_block rows_api no_records found ≡ some one_block
unfolding record_block block put write
one_block_recorded = refl

record_block-IsStored_example :
    IsStored rows_api one_block
    × ((h : List ℕ)
        → block one_block h ≡ (
            if same_bytes hash h && not (is_some (block no_records h))
            then some found
            else block no_records h))
record_block-IsStored_example =
    record_block-IsStored rows_api rows_api-Laws no_records one_block found no_records-IsStored
      one_block_recorded

voided :
    (r : BlockRecords Rows) × (void_block rows_api one_block hash
      ≡ some (record { block = some found; owed = none }, r))
unfolding void_block block owed_block remove_rows write remove_from
voided = (_, refl)

void_block-IsVoided_example :
    IsVoided rows_api rows_api-Laws one_block voided.0 hash
      (record { block = some found; owed = none })
void_block-IsVoided_example =
    void_block-IsVoided rows_api rows_api-Laws one_block voided.0 hash
      (record { block = some found; owed = none }) record_block-IsStored_example.0 voided.1

owing : (r : BlockRecords Rows) × (record_owed rows_api no_records owes ≡ some r)
unfolding record_owed owed_block put write
owing = (_, refl)

paying :
    (r : BlockRecords Rows) × (settle_owed rows_api owing.0 hash 0
      ≡ some (some (record owes { settled_at = some 1 }), r))
unfolding record_owed settle_owed settle_found owed_block put write owing
paying = (_, refl)

settle_owed-IsSettled_example :
    IsSettled rows_api rows_api-Laws owing.0 paying.0 hash 0
      (some (record owes { settled_at = some 1 }))
settle_owed-IsSettled_example =
    settle_owed-IsSettled rows_api rows_api-Laws owing.0 paying.0 hash 0
      (some (record owes { settled_at = some 1 }))
      (record_owed-IsStored rows_api rows_api-Laws no_records owing.0 owes no_records-IsStored
        owing.1).0
      paying.1

-- Every byte string counts as valid here.
abbrev as_is : List ℕ → List ℕ
as_is xs = xs

owes-FitsOwed : FitsOwed as_is owes
unfolding FitsEntry total
owes-FitsOwed = record {
  found_at = omega arith;
  height = omega arith;
  hash = refl;
  total = omega arith;
  settled = tt;
  count = omega arith;
  entries = ((omega arith, omega arith, refl), tt);
}

unpack_owed-pack_owed_example : unpack_owed as_is hash (pack_owed owes) ≡ some owes
unpack_owed-pack_owed_example = unpack_owed-pack_owed as_is owes owes-FitsOwed
