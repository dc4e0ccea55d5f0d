-- ===== src/Ledger/Blocks/Stored.antt =====
-- The records held are the rows stored, after every operation.
use ratum.Base.{
  ℕ, ◌≡◌, refl, sym, ap, ◌∙◌, arith, List, [], ◌∷◌, ◌++◌, Option, none, some, Bool, true, false,
  ◌&&◌, not, same_bytes, same_bytes→≡, if◌then◌else◌, subst, some_inj, elim_some,
}
use ratum.Ledger.Blocks.Rows.{
  OwedBlock, FoundBlock, ConfirmationReading, pack_owed, pack_block, pack_confirmations,
}
use ratum.Ledger.Blocks.Keyed.{find_key, IsUnique, find_key-append, IsUnique-append}
use ratum.Ledger.Blocks.{
  Table, blocks_table, owed_table, chain_state_table, DbApi, BlockRecords, hash_of, owed_hash,
  is_some, block, owed_block, write, put, record_block,
}

abbrev pub same_table : Table → Table → Bool
same_table blocks_table blocks_table = true
same_table blocks_table owed_table = false
same_table blocks_table chain_state_table = false
same_table owed_table blocks_table = false
same_table owed_table owed_table = true
same_table owed_table chain_state_table = false
same_table chain_state_table blocks_table = false
same_table chain_state_table owed_table = false
same_table chain_state_table chain_state_table = true

abbrev pub packed : {A : Type 0} → (A → List ℕ) → Option A → Option (List ℕ)
packed f none = none
packed f (some a) = some (f a)

-- What a database documents of its transactions: one shows the database's rows when it begins, a
-- write or a removal changes the row under its key in its table, and a commit leaves what it shows.
pub record Laws {Db Txn : Type 0} (api : DbApi Db Txn) : Type 0 where
  pub begun :
      (db : Db) (w : Txn) (u : Table) (j : List ℕ)
      → api.begin_write db ≡ some w
      → api.txn_row w u j ≡ api.row db u j
  pub inserted :
      (w w' : Txn) (t u : Table) (k j v : List ℕ)
      → api.insert w t k v ≡ some w'
      → api.txn_row w' u j
        ≡ (if same_table t u && same_bytes k j then some v else api.txn_row w u j)
  pub removed :
      (w w' : Txn) (t u : Table) (k j : List ℕ)
      → api.remove w t k ≡ some w'
      → api.txn_row w' u j ≡ (if same_table t u && same_bytes k j then none else api.txn_row w u j)
  pub committed :
      (w : Txn) (db : Db) (u : Table) (j : List ℕ)
      → api.commit w ≡ some db
      → api.row db u j ≡ api.txn_row w u j

written :
    (test : Bool) (v : List ℕ) {x y : Option (List ℕ)}
    → x ≡ y
    → (if test then some v else x) ≡ (if test then some v else y)
written test v q = ap (λ z. if test then some v else z) q

-- A map answers the same under equal hashes.
pub at_hash :
    {A : Type 0} (m : List ℕ → Option A) (k h : List ℕ) → same_bytes k h ≡ true → m h ≡ m k
at_hash m k h e = ap m (sym (same_bytes→≡ k h e))

module _ {Db : Type 0} (r : BlockRecords Db) (b : FoundBlock) where
  block_pushed :
      (o : Option Db) (h : List ℕ)
      → block r b.block_hash ≡ none
      → block (record r { db = o; blocks = r.blocks ++ (b ∷ []) }) h
        ≡ (if same_bytes b.block_hash h && not (is_some (block r h)) then some b else block r h)
  unfolding block
  block_pushed o h fresh = ground (
    arith,
    find_key-append hash_of r.blocks b h fresh,
    fresh,
    at_hash (find_key hash_of r.blocks) b.block_hash h,
  )

module _ {Db Txn : Type 0} (api : DbApi Db Txn) where
  -- The rows of a database are these records.
  abbrev pub Mirrors :
      Option Db
      → (List ℕ → Option FoundBlock)
      → (List ℕ → Option OwedBlock)
      → (List ℕ → Option ConfirmationReading)
      → Type 0
  Mirrors none blocks owed readings = Unit
  Mirrors (some db) blocks owed readings =
      (h : List ℕ)
      → (api.row db blocks_table h ≡ packed pack_block (blocks h))
        × (api.row db owed_table h ≡ packed pack_owed (owed h))
        × (api.row db chain_state_table h ≡ packed pack_confirmations (readings h))

  pub record IsStored (r : BlockRecords Db) : Type 0 where
    pub blocks : IsUnique hash_of r.blocks
    pub owed : IsUnique owed_hash r.owed
    pub mirrors : Mirrors r.db (block r) (owed_block r) r.confirmations

  module _ (laws : Laws api) where
    -- A write that succeeds ran its closure on the rows of the database, and left the rows of that.
    pub write-some :
        (db db' : Db) (f : Txn → Option Txn)
        → write api db f ≡ some db'
        → (w w' : Txn) × (f w ≡ some w')
          × ((u : Table) (j : List ℕ) → api.txn_row w u j ≡ api.row db u j)
          × ((u : Table) (j : List ℕ) → api.row db' u j ≡ api.txn_row w' u j)
    unfolding write
    write-some db db' f e =
        let (w, begins, e₁) =
          elim_some (api.begin_write db) (λ w. elim (f w) [ none ↦ none | some w' ↦ api.commit w' ])
            e in
        let (w', runs, commits) = elim_some (f w) api.commit e₁ in
        (w, w', runs, λ u j. laws.begun db w u j begins, λ u j. laws.committed w' db' u j commits)

    -- A row written on its own.
    put_row :
        (db db' : Db) (t u : Table) (k j v : List ℕ)
        → write api db (λ w. api.insert w t k v) ≡ some db'
        → api.row db' u j ≡ (if same_table t u && same_bytes k j then some v else api.row db u j)
    put_row db db' t u k j v e =
        let (w, w', runs, before, after) = write-some db db' (λ w. api.insert w t k v) e in
        after u j
        ∙ laws.inserted w w' t u k j v runs
        ∙ written (same_table t u && same_bytes k j) v (before u j)

    pub put-Mirrors :
        (o o' : Option Db) (t : Table) (k v : List ℕ) (blocks blocks' : List ℕ → Option FoundBlock)
        (owed owed' : List ℕ → Option OwedBlock)
        (readings readings' : List ℕ → Option ConfirmationReading)
        → put api o t k v ≡ some o'
        → ((h : List ℕ)
            → packed pack_block (blocks' h) ≡ (
                if same_table t blocks_table && same_bytes k h
                then some v
                else packed pack_block (blocks h)))
        → ((h : List ℕ)
            → packed pack_owed (owed' h) ≡ (
                if same_table t owed_table && same_bytes k h
                then some v
                else packed pack_owed (owed h)))
        → ((h : List ℕ)
            → packed pack_confirmations (readings' h) ≡ (
                if same_table t chain_state_table && same_bytes k h
                then some v
                else packed pack_confirmations (readings h)))
        → Mirrors o blocks owed readings
        → Mirrors o' blocks' owed' readings'
    unfolding put
    put-Mirrors none none t k v blocks blocks' owed owed' readings readings' e b w c m = tt
    put-Mirrors none (some d) t k v blocks blocks' owed owed' readings readings' e b w c m =
        absurd (ground (arith, e))
    put-Mirrors (some db) o' t k v blocks blocks' owed owed' readings readings' e b w c m =
        let (db', i, done) =
          elim_some (write api db (λ w. api.insert w t k v)) (λ x. some (some x)) e in
        subst (λ o. Mirrors o blocks' owed' readings') (some_inj done)
          (λ h. (
            put_row db db' t blocks_table k h v i
                ∙ written (same_table t blocks_table && same_bytes k h) v (m h).0
                ∙ sym (b h),
            put_row db db' t owed_table k h v i
                ∙ written (same_table t owed_table && same_bytes k h) v (m h).1
                ∙ sym (w h),
            put_row db db' t chain_state_table k h v i
                ∙ written (same_table t chain_state_table && same_bytes k h) v (m h).2
                ∙ sym (c h),
          ))

    known_kept :
        (r : BlockRecords Db) (b known : FoundBlock)
        → block r b.block_hash ≡ some known
        → record_block api r b ≡ some r
    unfolding record_block
    known_kept r b known k = ground (arith, k)

    fresh_put :
        (r : BlockRecords Db) (b : FoundBlock)
        → block r b.block_hash ≡ none
        → record_block api r b ≡ elim (put api r.db blocks_table b.block_hash (pack_block b)) [
          | none ↦ none
          | some db ↦ some (record r { db = db; blocks = r.blocks ++ (b ∷ []) })
        ]
    unfolding record_block
    fresh_put r b k = ground (arith, k)

    put_block-IsStored :
        (r : BlockRecords Db) (b : FoundBlock) (o : Option Db)
        → IsStored r
        → block r b.block_hash ≡ none
        → put api r.db blocks_table b.block_hash (pack_block b) ≡ some o
        → IsStored (record r { db = o; blocks = r.blocks ++ (b ∷ []) })
    unfolding block owed_block
    put_block-IsStored r b o s fresh e = record {
      blocks = IsUnique-append hash_of r.blocks b fresh s.blocks;
      owed = s.owed;
      mirrors =
          put-Mirrors r.db o blocks_table b.block_hash (pack_block b) (block r)
            (find_key hash_of (r.blocks ++ (b ∷ []))) (owed_block r) (owed_block r) r.confirmations
            r.confirmations e (λ h. ground (arith, find_key-append hash_of r.blocks b h fresh))
            (λ h. refl) (λ h. refl) s.mirrors;
    }

    -- A block is recorded once: over a database that keeps its laws, a ledger whose rows are its
    -- records keeps that if the write succeeds, and then finds the block under its hash unless
    -- another was there, and every other block as before.
    pub record_block-IsStored :
        (r r' : BlockRecords Db) (b : FoundBlock)
        → IsStored r
        → record_block api r b ≡ some r'
        → IsStored r'
          × ((h : List ℕ)
              → block r' h ≡ (
                  if same_bytes b.block_hash h && not (is_some (block r h))
                  then some b
                  else block r h))
    unfolding record_block
    record_block-IsStored r r' b s e = by_known (block r b.block_hash) refl
      where
        Done : BlockRecords Db → Type 0
        Done x =
            IsStored x
            × ((h : List ℕ)
                → block x h ≡ (
                    if same_bytes b.block_hash h && not (is_some (block r h))
                    then some b
                    else block r h))

        by_known : (x : Option FoundBlock) → block r b.block_hash ≡ x → Done r'
        by_known (some known) k =
            subst Done (some_inj (sym (known_kept r b known k) ∙ e))
              (s, λ h. ground (arith, k, at_hash (block r) b.block_hash h))
        by_known none k =
            let (o, p, done) =
              elim_some (put api r.db blocks_table b.block_hash (pack_block b))
                (λ db. some (record r { db = db; blocks = r.blocks ++ (b ∷ []) }))
                (sym (fresh_put r b k) ∙ e) in
            subst Done (some_inj done) (put_block-IsStored r b o s k p, λ h. block_pushed r b o h k)
