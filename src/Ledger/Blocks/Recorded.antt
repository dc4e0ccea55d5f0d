-- ===== src/Ledger/Blocks/Recorded.antt =====
-- What is owed for a block is recorded once, and the newest reading of a block is the one held.
use ratum.Base.{
  ℕ, ◌≡◌, refl, sym, ◌∙◌, arith, List, [], ◌∷◌, ◌++◌, Option, none, some, Bool, true, false, ◌&&◌,
  not, same_bytes, if◌then◌else◌, subst, some_inj, elim_some,
}
use ratum.Ledger.Blocks.Rows.{OwedBlock, ConfirmationReading, pack_owed, pack_confirmations}
use ratum.Ledger.Blocks.Keyed.{find_key, find_key-append, IsUnique-append}
use ratum.Ledger.Blocks.{
  owed_table, chain_state_table, DbApi, BlockRecords, owed_hash, is_some, block, owed_block, put,
  record_owed, record_confirmations,
}
use ratum.Ledger.Blocks.Stored.{Laws, IsStored, packed, put-Mirrors, at_hash}

module _ {Db Txn : Type 0} (api : DbApi Db Txn) (laws : Laws api) where
  put_owed-IsStored :
      (r : BlockRecords Db) (o : OwedBlock) (db : Option Db)
      → IsStored api r
      → owed_block r o.block_hash ≡ none
      → put api r.db owed_table o.block_hash (pack_owed o) ≡ some db
      → IsStored api (record r { db = db; owed = r.owed ++ (o ∷ []) })
  unfolding block owed_block
  put_owed-IsStored r o db s fresh e = record {
    blocks = s.blocks;
    owed = IsUnique-append owed_hash r.owed o fresh s.owed;
    mirrors =
        put-Mirrors api laws r.db db owed_table o.block_hash (pack_owed o) (block r) (block r)
          (owed_block r) (find_key owed_hash (r.owed ++ (o ∷ []))) r.confirmations r.confirmations e
          (λ h. refl) (λ h. ground (arith, find_key-append owed_hash r.owed o h fresh)) (λ h. refl)
          s.mirrors;
  }

  owed_pushed :
      (r : BlockRecords Db) (o : OwedBlock) (db : Option Db) (h : List ℕ)
      → owed_block r o.block_hash ≡ none
      → owed_block (record r { db = db; owed = r.owed ++ (o ∷ []) }) h ≡ (
          if same_bytes o.block_hash h && not (is_some (owed_block r h))
          then some o
          else owed_block r h)
  unfolding owed_block
  owed_pushed r o db h fresh = ground (
    arith,
    find_key-append owed_hash r.owed o h fresh,
    fresh,
    at_hash (find_key owed_hash r.owed) o.block_hash h,
  )

  -- A ledger whose rows are its records keeps that when it records what a block is owed, and holds it
  -- under the block's hash unless something was owed there before.
  pub record_owed-IsStored :
      (r r' : BlockRecords Db) (o : OwedBlock)
      → IsStored api r
      → record_owed api r o ≡ some r'
      → IsStored api r'
        × ((h : List ℕ)
            → owed_block r' h ≡ (
                if same_bytes o.block_hash h && not (is_some (owed_block r h))
                then some o
                else owed_block r h))
  unfolding record_owed
  record_owed-IsStored r r' o s e = by_known (owed_block r o.block_hash) refl
    where
      Done : BlockRecords Db → Type 0
      Done x =
          IsStored api x
          × ((h : List ℕ)
              → owed_block x h ≡ (
                  if same_bytes o.block_hash h && not (is_some (owed_block r h))
                  then some o
                  else owed_block r h))

      pushed : Option Db → Option (BlockRecords Db)
      pushed db = some (record r { db = db; owed = r.owed ++ (o ∷ []) })

      kept :
          (known : OwedBlock)
          → owed_block r o.block_hash ≡ some known
          → some r ≡ record_owed api r o
      kept known k = ground (arith, k)

      writes :
          owed_block r o.block_hash ≡ none
          → record_owed api r o ≡ elim (put api r.db owed_table o.block_hash (pack_owed o)) [
            | none ↦ none
            | some db ↦ pushed db
          ]
      writes k = ground (arith, k)

      by_known : (x : Option OwedBlock) → owed_block r o.block_hash ≡ x → Done r'
      by_known (some known) k =
          subst Done (some_inj (kept known k ∙ e))
            (s, λ h. ground (arith, k, at_hash (owed_block r) o.block_hash h))
      by_known none k =
          let (db, p, done) =
            elim_some (put api r.db owed_table o.block_hash (pack_owed o)) pushed
              (sym (writes k) ∙ e) in
          subst Done (some_inj done) (put_owed-IsStored r o db s k p, λ h. owed_pushed r o db h k)

  -- A reading replaces the one before, which is answered, in the ledger and in its row.
  pub record_confirmations-IsStored :
      (r r' : BlockRecords Db) (hash : List ℕ) (reading : ConfirmationReading)
      (before : Option ConfirmationReading)
      → IsStored api r
      → record_confirmations api r hash reading ≡ some (before, r')
      → IsStored api r'
        × (before ≡ r.confirmations hash)
        × ((h : List ℕ)
            → r'.confirmations h ≡ (if same_bytes hash h then some reading else r.confirmations h))
  unfolding record_confirmations block owed_block
  record_confirmations-IsStored r r' hash reading before s e =
      let (db, p, done) =
        elim_some (put api r.db chain_state_table hash (pack_confirmations reading)) after e in
      subst
        (λ q.
          IsStored api (q.1)
          × (q.0 ≡ r.confirmations hash)
          × ((h : List ℕ)
              → (q.1).confirmations h
                ≡ (if same_bytes hash h then some reading else r.confirmations h)))
        (some_inj done)
        (
          record {
            blocks = s.blocks;
            owed = s.owed;
            mirrors =
                put-Mirrors api laws r.db db chain_state_table hash (pack_confirmations reading)
                  (block r) (block r) (owed_block r) (owed_block r) r.confirmations _ p (λ h. refl)
                  (λ h. refl) (λ h. row h (same_bytes hash h)) s.mirrors;
          },
          refl,
          λ h. refl,
        )
    where
      after : Option Db → Option (Option ConfirmationReading × BlockRecords Db)
      after db = some (
        r.confirmations hash,
        record r {
          db = db;
          confirmations = λ h. if same_bytes hash h then some reading else r.confirmations h;
        },
      )

      row :
          (h : List ℕ) (b : Bool)
          → packed pack_confirmations (if b then some reading else r.confirmations h) ≡ (
              if b
              then some (pack_confirmations reading)
              else packed pack_confirmations (r.confirmations h))
      row h true = refl
      row h false = refl
