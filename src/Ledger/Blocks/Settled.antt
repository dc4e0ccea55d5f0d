-- ===== src/Ledger/Blocks/Settled.antt =====
-- What is owed for a block is settled once.
use ratum.Base.{
  ℕ, ◌≡◌, refl, sym, ap, ◌∙◌, arith, max, List, [], ◌∷◌, Option, none, some, Bool, true, false,
  same_bytes, same_bytes→≡, if◌then◌else◌, subst, some_inj, elim_some,
}
use ratum.Ledger.Blocks.Rows.{OwedBlock, pack_owed}
use ratum.Ledger.Blocks.Keyed.{find_key, replace_key, find_key-replace_key, IsUnique-replace_key}
use ratum.Ledger.Blocks.{
  owed_table, DbApi, BlockRecords, owed_hash, block, owed_block, put, settle_found, settle_owed,
}
use ratum.Ledger.Blocks.Stored.{Laws, IsStored, put-Mirrors, at_hash}

-- The record once it is settled at a time: a time it has is kept.
abbrev pub settled_with : OwedBlock → ℕ → Option ℕ → OwedBlock
settled_with o time (some before) = o
settled_with o time none = record o { settled_at = some (max time 1) }

abbrev pub settled : ℕ → Option OwedBlock → Option OwedBlock
settled time none = none
settled time (some o) = some (settled_with o time o.settled_at)

-- A record is found under its own hash.
find_key-hash :
    (os : List OwedBlock) (hash : List ℕ) (o : OwedBlock)
    → find_key owed_hash os hash ≡ some o
    → o.block_hash ≡ hash
find_key-hash [] hash o h = absurd (ground (arith, h))
find_key-hash (x ∷ os) hash o h =
    ground (arith, h, find_key-hash os hash o, same_bytes→≡ x.block_hash hash)

module _ {Db Txn : Type 0} (api : DbApi Db Txn) (laws : Laws api) where
  -- What settling answers and leaves.
  pub record IsSettled (r r' : BlockRecords Db) (hash : List ℕ) (time : ℕ)
      (answer : Option OwedBlock) : Type 0 where
    pub stored : IsStored api r'
    pub settles : answer ≡ settled time (owed_block r hash)
    pub owed :
        (h : List ℕ) → owed_block r' h ≡ (if same_bytes hash h then answer else owed_block r h)
    pub blocks : (h : List ℕ) → block r' h ≡ block r h

  same_owed :
      (r : BlockRecords Db) (hash h : List ℕ)
      → owed_block r h ≡ (if same_bytes hash h then owed_block r hash else owed_block r h)
  same_owed r hash h = by_test (same_bytes hash h) refl
    where
      by_test :
          (b : Bool)
          → same_bytes hash h ≡ b
          → owed_block r h ≡ (if b then owed_block r hash else owed_block r h)
      by_test true t = at_hash (owed_block r) hash h t
      by_test false t = refl

  unchanged :
      (r : BlockRecords Db) (hash : List ℕ) (time : ℕ)
      → IsStored api r
      → owed_block r hash ≡ settled time (owed_block r hash)
      → IsSettled r r hash time (owed_block r hash)
  unchanged r hash time s e = record {
    stored = s;
    settles = e;
    owed = same_owed r hash;
    blocks = λ h. refl;
  }

  replaced :
      (r : BlockRecords Db) (hash : List ℕ) (time : ℕ) (o : OwedBlock) (db : Option Db)
      → IsStored api r
      → owed_block r hash ≡ some o
      → o.settled_at ≡ none
      → put api r.db owed_table o.block_hash
          (pack_owed (record o { settled_at = some (max time 1) }))
        ≡ some db
      → IsSettled r
          (record r {
            db = db;
            owed = replace_key owed_hash r.owed hash (record o { settled_at = some (max time 1) });
          })
          hash
          time
          (some (record o { settled_at = some (max time 1) }))
  unfolding owed_block block
  replaced r hash time o db s found unsettled e =
      let paid : OwedBlock = record o { settled_at = some (max time 1) } in
      let here = find_key-hash r.owed hash o found in
      let left : (h : List ℕ)
          → owed_block (record r { db = db; owed = replace_key owed_hash r.owed hash paid }) h
            ≡ (if same_bytes hash h then some paid else owed_block r h) =
        λ h. find_key-replace_key owed_hash r.owed o paid hash h found here in
      record {
        stored = record {
          blocks = s.blocks;
          owed = IsUnique-replace_key owed_hash r.owed o paid hash found here s.owed;
          mirrors =
              put-Mirrors api laws r.db db owed_table o.block_hash (pack_owed paid) (block r)
                (block r) (owed_block r) _ r.confirmations r.confirmations e (λ h. refl)
                (λ h. ground (arith, left h, ap (λ t. same_bytes t h) here)) (λ h. refl) s.mirrors;
        };
        settles = ground (arith, found, unsettled);
        owed = left;
        blocks = λ h. refl;
      }

  -- In a ledger whose rows are its records, over a database that keeps its laws, settling what is
  -- owed for a block answers, if the write succeeds, its record with the time, 1 at the least,
  -- that it was first settled at, or nothing when none is owed, and leaves that answer under the
  -- hash, every other record as before, and the rows of its records.
  pub settle_owed-IsSettled :
      (r r' : BlockRecords Db) (hash : List ℕ) (time : ℕ) (answer : Option OwedBlock)
      → IsStored api r
      → settle_owed api r hash time ≡ some (answer, r')
      → IsSettled r r' hash time answer
  unfolding settle_owed settle_found
  settle_owed-IsSettled r r' hash time answer s e = by_found (owed_block r hash) refl
    where
      Done : Option OwedBlock × BlockRecords Db → Type 0
      Done p = IsSettled r (p.1) hash time (p.0)

      paid : OwedBlock → OwedBlock
      paid o = record o { settled_at = some (max time 1) }

      left : OwedBlock → Option Db → Option (Option OwedBlock × BlockRecords Db)
      left o db =
          some
            (some (paid o), record r { db = db; owed = replace_key owed_hash r.owed hash (paid o) })

      writes :
          (o : OwedBlock)
          → owed_block r hash ≡ some o
          → o.settled_at ≡ none
          → settle_owed api r hash time
            ≡ elim (put api r.db owed_table o.block_hash (pack_owed (paid o))) [
              | none ↦ none
              | some db ↦ left o db
            ]
      writes o f t = ground (arith, f, t)

      by_time :
          (o : OwedBlock) (x : Option ℕ)
          → owed_block r hash ≡ some o
          → o.settled_at ≡ x
          → Done (answer, r')
      by_time o (some before) f t =
          subst Done (some_inj (answers o before f t ∙ e))
            (unchanged r hash time s (ground (arith, f, t)))
        where
          answers :
              (o : OwedBlock) (before : ℕ)
              → owed_block r hash ≡ some o
              → o.settled_at ≡ some before
              → some (owed_block r hash, r) ≡ settle_owed api r hash time
          answers o before f t = ground (arith, f, t)
      by_time o none f t =
          let (db, rows, done) =
            elim_some (put api r.db owed_table o.block_hash (pack_owed (paid o))) (left o)
              (sym (writes o f t) ∙ e) in
          subst Done (some_inj done) (replaced r hash time o db s f t rows)

      by_found : (x : Option OwedBlock) → owed_block r hash ≡ x → Done (answer, r')
      by_found none f =
          subst Done (some_inj (not_owed f ∙ e)) (unchanged r hash time s (ground (arith, f)))
        where
          not_owed :
              owed_block r hash ≡ none → some (owed_block r hash, r) ≡ settle_owed api r hash time
          not_owed f = ground (arith, f)
      by_found (some o) f = by_time o o.settled_at f refl
