-- ===== src/Ledger/Blocks.antt =====
-- prime/src/ledger/blocks.rs: the blocks that the pool accepted, what their coinbases left owed, and
-- the node's last reading of each.
--
-- The database is an interface: a transaction that begins on it, writes or removes a row at a time
-- and is committed. A transaction that is not committed leaves the database as it was, and an error
-- leaves the records as they were. A map of readings is a function.
pub mod Keyed
pub mod Rows
pub mod Stored
pub mod Settled
pub mod Recorded
pub mod Void
use ratum.Base.{
  ℕ, max, List, [], ◌∷◌, ◌++◌, Option, none, some, Bool, true, false, ◌&&◌, not, same_bytes,
  if◌then◌else◌,
}
use ratum.Ledger.Blocks.Rows.{
  OwedBlock, FoundBlock, ConfirmationReading, pack_owed, pack_block, pack_confirmations,
}
use ratum.Ledger.Blocks.Keyed.{find_key, replace_key, remove_key}

pub data Table : Type 0 where
  blocks_table : Table
  owed_table : Table
  chain_state_table : Table

-- The transactions that `write` runs, and the rows that a database and a transaction show.
pub record DbApi (Db Txn : Type 0) : Type 0 where
  pub begin_write : Db → Option Txn
  pub insert : Txn → Table → List ℕ → List ℕ → Option Txn
  pub remove : Txn → Table → List ℕ → Option Txn
  pub commit : Txn → Option Db
  pub row : Db → Table → List ℕ → Option (List ℕ)
  pub txn_row : Txn → Table → List ℕ → Option (List ℕ)

pub record BlockRecords (Db : Type 0) : Type 0 where
  pub db : Option Db
  pub blocks : List FoundBlock
  pub owed : List OwedBlock
  pub confirmations : List ℕ → Option ConfirmationReading

pub record Voided : Type 0 where
  pub block : Option FoundBlock
  pub owed : Option OwedBlock

abbrev pub hash_of : FoundBlock → List ℕ
hash_of b = b.block_hash

abbrev pub owed_hash : OwedBlock → List ℕ
owed_hash o = o.block_hash

abbrev pub is_some {ℓ} : {A : Type ℓ} → Option A → Bool
is_some none = false
is_some (some a) = true

abbrev pub block_tables : List Table
block_tables = blocks_table ∷ owed_table ∷ chain_state_table ∷ []

module _ {Db : Type 0} where
  -- `block` and `confirmations`.
  unfoldable pub block : BlockRecords Db → List ℕ → Option FoundBlock
  block r hash = find_key hash_of r.blocks hash

  unfoldable pub owed_block : BlockRecords Db → List ℕ → Option OwedBlock
  owed_block r hash = find_key owed_hash r.owed hash

module _ {Db Txn : Type 0} (api : DbApi Db Txn) where
  -- `write(db, f)`: a transaction, committed where the closure succeeds.
  unfoldable pub write : Db → (Txn → Option Txn) → Option Db
  write db f = elim (api.begin_write db) [
    | none ↦ none
    | some w ↦ elim (f w) [ none ↦ none | some w' ↦ api.commit w' ]
  ]

  -- `put`: a ledger with no file writes nothing.
  unfoldable pub put : Option Db → Table → List ℕ → List ℕ → Option (Option Db)
  put none table key value = some none
  put (some db) table key value = elim (write db (λ w. api.insert w table key value)) [
    | none ↦ none
    | some db' ↦ some (some db')
  ]

  unfoldable pub record_block : BlockRecords Db → FoundBlock → Option (BlockRecords Db)
  record_block r b = elim (block r b.block_hash) [
    | some known ↦ some r
    | none ↦ elim (put r.db blocks_table b.block_hash (pack_block b)) [
      | none ↦ none
      | some db ↦ some (record r { db = db; blocks = r.blocks ++ (b ∷ []) })
    ]
  ]

  unfoldable pub record_confirmations :
      BlockRecords Db
      → List ℕ
      → ConfirmationReading
      → Option (Option ConfirmationReading × BlockRecords Db)
  record_confirmations r hash reading =
      elim (put r.db chain_state_table hash (pack_confirmations reading)) [
        | none ↦ none
        | some db ↦ some (
          r.confirmations hash,
          record r {
            db = db;
            confirmations = λ h. if same_bytes hash h then some reading else r.confirmations h;
          },
        )
      ]

  unfoldable pub record_owed : BlockRecords Db → OwedBlock → Option (BlockRecords Db)
  record_owed r o = elim (owed_block r o.block_hash) [
    | some known ↦ some r
    | none ↦ elim (put r.db owed_table o.block_hash (pack_owed o)) [
      | none ↦ none
      | some db ↦ some (record r { db = db; owed = r.owed ++ (o ∷ []) })
    ]
  ]

  -- `settle_owed` of the record found, whose own hash is written under.
  unfoldable pub settle_found :
      BlockRecords Db → List ℕ → ℕ → OwedBlock → Option (Option OwedBlock × BlockRecords Db)
  settle_found r hash settled_at o = elim o.settled_at [
    | some before ↦ some (some o, r)
    | none ↦
        elim (put r.db owed_table o.block_hash
          (pack_owed (record o { settled_at = some (max settled_at 1) }))) [
            | none ↦ none
            | some db ↦ some (
              some (record o { settled_at = some (max settled_at 1) }),
              record r {
                db = db;
                owed =
                    replace_key owed_hash r.owed hash
                      (record o { settled_at = some (max settled_at 1) });
              },
            )
          ]
  ]

  unfoldable pub settle_owed :
      BlockRecords Db → List ℕ → ℕ → Option (Option OwedBlock × BlockRecords Db)
  settle_owed r hash settled_at = elim (owed_block r hash) [
    | none ↦ some (none, r)
    | some o ↦ settle_found r hash settled_at o
  ]

  -- The loop over the tables, within the transaction.
  unfoldable pub remove_from : Txn → List Table → List ℕ → Option Txn
  remove_from w [] hash = some w
  remove_from w (table ∷ tables) hash = elim (api.remove w table hash) [
    | none ↦ none
    | some w' ↦ remove_from w' tables hash
  ]

  unfoldable pub remove_rows : Option Db → List ℕ → Option (Option Db)
  remove_rows none hash = some none
  remove_rows (some db) hash = elim (write db (λ w. remove_from w block_tables hash)) [
    | none ↦ none
    | some db' ↦ some (some db')
  ]

  unfoldable pub void_block : BlockRecords Db → List ℕ → Option (Voided × BlockRecords Db)
  void_block r hash =
      if not (is_some (block r hash))
        && not (is_some (owed_block r hash))
        && not (is_some (r.confirmations hash))
      then some (record { block = none; owed = none }, r)
      else elim (remove_rows r.db hash) [
        | none ↦ none
        | some db ↦ some (
          record { block = block r hash; owed = owed_block r hash },
          record {
            db = db;
            blocks = remove_key hash_of r.blocks hash;
            owed = remove_key owed_hash r.owed hash;
            confirmations = λ h. if same_bytes hash h then none else r.confirmations h;
          },
        )
      ]
