-- ===== src/Ledger/Blocks/Void.antt =====
-- A voided block leaves no record and no row.
use ratum.Base.{
  ℕ, ◌≡◌, refl, sym, ap, ◌∙◌, arith, List, [], ◌∷◌, Option, none, some, Bool, true, false, ◌&&◌,
  not, same_bytes, if◌then◌else◌, subst, some_inj, elim_some, Bool-cases, inl, inr,
}
use ratum.Ledger.Blocks.Rows.{
  OwedBlock, FoundBlock, ConfirmationReading, pack_owed, pack_block, pack_confirmations,
}
use ratum.Ledger.Blocks.Keyed.{remove_key, find_key-remove_key, IsUnique-remove_key}
use ratum.Ledger.Blocks.{
  blocks_table, owed_table, chain_state_table, DbApi, BlockRecords, Voided, hash_of, owed_hash,
  is_some, block, owed_block, write, remove_from, block_tables, remove_rows, void_block, Table,
}
use ratum.Ledger.Blocks.Stored.{Laws, Mirrors, IsStored, packed, at_hash, same_table, write-some}

-- The map without what stands under a hash.
abbrev pub without : {A : Type 0} → List ℕ → (List ℕ → Option A) → List ℕ → Option A
without k m h = if same_bytes k h then none else m h

packed-without :
    {A : Type 0} (f : A → List ℕ) (k h : List ℕ) (m m' : List ℕ → Option A)
    → m' h ≡ without k m h
    → packed f (m' h) ≡ (if same_bytes k h then none else packed f (m h))
packed-without f k h m m' e = ap (packed f) e ∙ by_test (same_bytes k h)
  where
    by_test : (b : Bool) → packed f (if b then none else m h) ≡ (if b then none else packed f (m h))
    by_test true = refl
    by_test false = refl

module _ {Db Txn : Type 0} (api : DbApi Db Txn) (laws : Laws api) where
  -- The row that the loop over the tables leaves.
  abbrev left_of : List Table → List ℕ → Table → List ℕ → Option (List ℕ) → Option (List ℕ)
  left_of [] k u j row = row
  left_of (t ∷ ts) k u j row =
      left_of ts k u j (if same_table t u && same_bytes k j then none else row)

  remove_from-left_of :
      (ts : List Table) (w w' : Txn) (k j : List ℕ) (u : Table)
      → remove_from api w ts k ≡ some w'
      → api.txn_row w' u j ≡ left_of ts k u j (api.txn_row w u j)
  unfolding remove_from
  remove_from-left_of [] w w' k j u e = ap (λ x. api.txn_row x u j) (sym (some_inj e))
  remove_from-left_of (t ∷ ts) w w' k j u e =
      let (w₁, one, rest) = elim_some (api.remove w t k) (λ x. remove_from api x ts k) e in
      remove_from-left_of ts w₁ w' k j u rest
      ∙ ap (left_of ts k u j) (laws.removed w w₁ t u k j one)

  left_of-tables :
      (u : Table) (k j : List ℕ) (row : Option (List ℕ))
      → left_of block_tables k u j row ≡ (if same_bytes k j then none else row)
  left_of-tables blocks_table k j row = ground arith
  left_of-tables owed_table k j row = ground arith
  left_of-tables chain_state_table k j row = ground arith

  -- Every table loses its row under the hash.
  removed_row :
      (db db' : Db) (u : Table) (k j : List ℕ)
      → write api db (λ w. remove_from api w block_tables k) ≡ some db'
      → api.row db' u j ≡ (if same_bytes k j then none else api.row db u j)
  removed_row db db' u k j e =
      let (w, w', runs, before, after) =
        write-some api laws db db' (λ w. remove_from api w block_tables k) e in
      after u j
      ∙ remove_from-left_of block_tables w w' k j u runs
      ∙ left_of-tables u k j (api.txn_row w u j)
      ∙ ap (λ x. if same_bytes k j then none else x) (before u j)

  remove_rows-Mirrors :
      (o o' : Option Db) (k : List ℕ) (blocks blocks' : List ℕ → Option FoundBlock)
      (owed owed' : List ℕ → Option OwedBlock)
      (readings readings' : List ℕ → Option ConfirmationReading)
      → remove_rows api o k ≡ some o'
      → ((h : List ℕ) → blocks' h ≡ without k blocks h)
      → ((h : List ℕ) → owed' h ≡ without k owed h)
      → ((h : List ℕ) → readings' h ≡ without k readings h)
      → Mirrors api o blocks owed readings
      → Mirrors api o' blocks' owed' readings'
  unfolding remove_rows
  remove_rows-Mirrors none none k blocks blocks' owed owed' readings readings' e b w c m = tt
  remove_rows-Mirrors none (some d) k blocks blocks' owed owed' readings readings' e b w c m =
      absurd (ground (arith, e))
  remove_rows-Mirrors (some db) o' k blocks blocks' owed owed' readings readings' e b w c m =
      let (db', i, done) =
        elim_some (write api db (λ w. remove_from api w block_tables k)) (λ x. some (some x)) e in
      subst (λ o. Mirrors api o blocks' owed' readings') (some_inj done)
        (λ h. (
          removed_row db db' blocks_table k h i
              ∙ dropped (same_bytes k h) (m h).0
              ∙ sym (packed-without pack_block k h blocks blocks' (b h)),
          removed_row db db' owed_table k h i
              ∙ dropped (same_bytes k h) (m h).1
              ∙ sym (packed-without pack_owed k h owed owed' (w h)),
          removed_row db db' chain_state_table k h i
              ∙ dropped (same_bytes k h) (m h).2
              ∙ sym (packed-without pack_confirmations k h readings readings' (c h)),
        ))
    where
      dropped :
          (b : Bool) {x y : Option (List ℕ)}
          → x ≡ y
          → (if b then none else x) ≡ (if b then none else y)
      dropped b q = ap (λ z. if b then none else z) q

  -- What voiding a block answers and leaves.
  pub record IsVoided (r r' : BlockRecords Db) (hash : List ℕ) (v : Voided) : Type 0 where
    pub stored : IsStored api r'
    pub answer_block : v.block ≡ block r hash
    pub answer_owed : v.owed ≡ owed_block r hash
    pub blocks : (h : List ℕ) → block r' h ≡ without hash (block r) h
    pub owed : (h : List ℕ) → owed_block r' h ≡ without hash (owed_block r) h
    pub readings : (h : List ℕ) → r'.confirmations h ≡ without hash r.confirmations h

  absent : {A : Type 0} (x : Option A) → is_some x ≡ false → x ≡ none
  absent none i = refl
  absent (some a) i = absurd (ground (arith, i))

  nothing_held :
      {A : Type 0} (m : List ℕ → Option A) (hash h : List ℕ)
      → is_some (m hash) ≡ false
      → m h ≡ without hash m h
  nothing_held {A = A} m hash h e = by_test (same_bytes hash h) refl
    where
      by_test : (b : Bool) → same_bytes hash h ≡ b → m h ≡ (if b then none else m h)
      by_test true t = at_hash m hash h t ∙ absent (m hash) e
      by_test false t = refl

  untouched :
      (r : BlockRecords Db) (hash : List ℕ)
      → IsStored api r
      → is_some (block r hash) ≡ false
      → is_some (owed_block r hash) ≡ false
      → is_some (r.confirmations hash) ≡ false
      → IsVoided r r hash (record { block = none; owed = none })
  untouched r hash s b o c = record {
    stored = s;
    answer_block = sym (absent (block r hash) b);
    answer_owed = sym (absent (owed_block r hash) o);
    blocks = λ h. nothing_held (block r) hash h b;
    owed = λ h. nothing_held (owed_block r) hash h o;
    readings = λ h. nothing_held r.confirmations hash h c;
  }

  removed :
      (r : BlockRecords Db) (hash : List ℕ) (db : Option Db)
      → IsStored api r
      → remove_rows api r.db hash ≡ some db
      → IsVoided r
          (record {
            db = db;
            blocks = remove_key hash_of r.blocks hash;
            owed = remove_key owed_hash r.owed hash;
            confirmations = λ h. if same_bytes hash h then none else r.confirmations h;
          })
          hash
          (record { block = block r hash; owed = owed_block r hash })
  unfolding block owed_block
  removed r hash db s e =
      let blocks_left = λ (h : List ℕ). find_key-remove_key hash_of r.blocks hash h s.blocks in
      let owed_left = λ (h : List ℕ). find_key-remove_key owed_hash r.owed hash h s.owed in
      record {
        stored = record {
          blocks = IsUnique-remove_key hash_of r.blocks hash s.blocks;
          owed = IsUnique-remove_key owed_hash r.owed hash s.owed;
          mirrors =
              remove_rows-Mirrors r.db db hash (block r) _ (owed_block r) _ r.confirmations _ e
                blocks_left owed_left (λ h. refl) s.mirrors;
        };
        answer_block = refl;
        answer_owed = refl;
        blocks = blocks_left;
        owed = owed_left;
        readings = λ h. refl;
      }

  -- In a ledger whose rows are its records, over a database that keeps its laws, voiding a block
  -- answers, if the write succeeds, the records under its hash and removes them, its reading and
  -- its rows, all at once, and leaves every other hash's as they were and the rows of its records.
  pub void_block-IsVoided :
      (r r' : BlockRecords Db) (hash : List ℕ) (v : Voided)
      → IsStored api r
      → void_block api r hash ≡ some (v, r')
      → IsVoided r r' hash v
  unfolding void_block
  void_block-IsVoided r r' hash v s e =
      elim (Bool-cases (
        not (is_some (block r hash))
        && not (is_some (owed_block r hash))
        && not (is_some (r.confirmations hash)))) [
          | inl none_held ↦
              subst (λ p. IsVoided r (p.1) hash (p.0)) (some_inj (sym (when_true none_held) ∙ e))
                (untouched r hash s (ground (arith, none_held)) (ground (arith, none_held))
                  (ground (arith, none_held)))
          | inr held ↦
              let (db, rows, done) =
                elim_some (remove_rows api r.db hash) left (sym (when_false held) ∙ e) in
              subst (λ p. IsVoided r (p.1) hash (p.0)) (some_inj done) (removed r hash db s rows)
        ]
    where
      left : Option Db → Option (Voided × BlockRecords Db)
      left db = some (
        record { block = block r hash; owed = owed_block r hash },
        record {
          db = db;
          blocks = remove_key hash_of r.blocks hash;
          owed = remove_key owed_hash r.owed hash;
          confirmations = λ h. if same_bytes hash h then none else r.confirmations h;
        },
      )

      when_true :
          (not (is_some (block r hash))
              && not (is_some (owed_block r hash))
              && not (is_some (r.confirmations hash)))
            ≡ true
          → void_block api r hash ≡ some (record { block = none; owed = none }, r)
      when_true t = rw t refl

      when_false :
          (not (is_some (block r hash))
              && not (is_some (owed_block r hash))
              && not (is_some (r.confirmations hash)))
            ≡ false
          → void_block api r hash
            ≡ elim (remove_rows api r.db hash) [ none ↦ none | some db ↦ left db ]
      when_false t = rw t refl
