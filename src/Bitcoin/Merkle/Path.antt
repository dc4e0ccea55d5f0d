-- ===== src/Bitcoin/Merkle/Path.antt =====
-- The branches of the coinbase's path lead to the root of the tree.
use ratum.Base.{
  ℕ, zero, suc, ◌*◌, ◌%◌, ◌≤◌, ◌≡◌, refl, sym, ap, ◌∙◌, arith, List, [], ◌∷◌, Option, none, some,
  Bool, false, ◌||◌, ◌==◌, length, map, Bool-cases, inl, inr,
}
use ratum.Bitcoin.Merkle.{
  Hash, push_last, hash_chunks, next_level, equal_chunk, MerkleTreeRoot, hash_pair, hash_known,
  merkle_root_from_branches, branch_rounds, merkle_branches, root_rounds, merkle_tree_root,
}

module _ {ℓ} {A : Type ℓ} (hash : A → A → A) where
  -- A level as its pairs.
  pub next_level_pair :
      (x y : A) (xs : List A) → next_level hash (x ∷ y ∷ xs) ≡ hash x y ∷ next_level hash xs
  unfolding next_level push_last hash_chunks
  next_level_pair x y [] = refl
  next_level_pair x y (z ∷ xs) = elim (Bool-cases (suc (length xs) % 2 == 1)) [
    | inl odd ↦ ground (arith, odd)
    | inr even ↦ ground (arith, even)
  ]

  pub next_level_single : (x : A) → next_level hash (x ∷ []) ≡ hash x x ∷ []
  unfolding next_level push_last hash_chunks
  next_level_single x = refl

  pub next_level_nil : next_level hash [] ≡ []
  unfolding next_level push_last hash_chunks
  next_level_nil = refl

  pub length-next_level : (xs : List A) → 2 * length (next_level hash xs) ≤ suc (length xs)
  length-next_level [] = omega (arith, ap length next_level_nil)
  length-next_level (x ∷ []) = omega (arith, ap length (next_level_single x))
  length-next_level (x ∷ y ∷ xs) =
      omega (arith, ap length (next_level_pair x y xs), length-next_level xs)

module _ (sha256 : List ℕ → Hash) where
  next_level-map :
      (xs : List Hash)
      → next_level (hash_known sha256) (map (λ x. some x) xs)
        ≡ map (λ x. some x) (next_level (hash_pair sha256) xs)
  unfolding hash_known
  next_level-map [] =
      next_level_nil (hash_known sha256)
      ∙ ap (map (λ x. some x)) (sym (next_level_nil (hash_pair sha256)))
  next_level-map (x ∷ []) =
      next_level_single (hash_known sha256) (some x)
      ∙ ap (map (λ x. some x)) (sym (next_level_single (hash_pair sha256) x))
  next_level-map (x ∷ y ∷ xs) =
      next_level_pair (hash_known sha256) (some x) (some y) (map (λ x. some x) xs)
      ∙ ap (λ t. some (hash_pair sha256 x y) ∷ t) (next_level-map xs)
      ∙ ap (map (λ x. some x)) (sym (next_level_pair (hash_pair sha256) x y xs))

  branch_step :
      (rounds : ℕ) (b : Hash) (xs level : List (Option Hash)) (branches : List Hash)
      → next_level (hash_known sha256) (none ∷ some b ∷ xs) ≡ level
      → branch_rounds sha256 rounds level ≡ some branches
      → branch_rounds sha256 (suc rounds) (none ∷ some b ∷ xs) ≡ some (b ∷ branches)
  unfolding branch_rounds
  branch_step rounds b xs level branches e h = ground (arith, ap (branch_rounds sha256 rounds) e, h)

  root_step :
      (rounds : ℕ) (mutated : Bool) (x y : Hash) (xs level : List Hash) (r : MerkleTreeRoot)
      → next_level (hash_pair sha256) (x ∷ y ∷ xs) ≡ level
      → root_rounds sha256 rounds (mutated || equal_chunk (x ∷ y ∷ xs)) level ≡ some r
      → root_rounds sha256 (suc rounds) mutated (x ∷ y ∷ xs) ≡ some r
  unfolding root_rounds
  root_step rounds mutated x y xs level r e h =
      ap (root_rounds sha256 rounds (mutated || equal_chunk (x ∷ y ∷ xs))) e ∙ h

  -- The path and the tree, level by level.
  path_rounds :
      (rounds : ℕ) (mutated : Bool) (first : Hash) (xs : List Hash)
      → length xs ≤ rounds
      → (branches : List Hash) × (branch_rounds sha256 (suc rounds) (none ∷ map (λ x. some x) xs)
          ≡ some branches)
        × (r : MerkleTreeRoot) × (root_rounds sha256 (suc rounds) mutated (first ∷ xs) ≡ some r)
        × (r.root ≡ merkle_root_from_branches sha256 first branches)
  unfolding branch_rounds root_rounds merkle_root_from_branches hash_known
  path_rounds rounds mutated first [] h =
      ([], refl, record { root = first; mutated = mutated }, refl, refl)
  path_rounds zero mutated first (x ∷ xs) h = absurd (omega arith)
  path_rounds (suc rounds) mutated first (x ∷ xs) h =
      let rest = next_level (hash_pair sha256) xs in
      let (branches, path, r, tree, same) =
        path_rounds rounds (mutated || equal_chunk (first ∷ x ∷ xs)) (hash_pair sha256 first x) rest
          (omega (arith, h, length-next_level (hash_pair sha256) xs)) in
      let known =
        next_level_pair (hash_known sha256) none (some x) (map (λ x. some x) xs)
        ∙ ap (λ t. none ∷ t) (next_level-map xs) in
      (
        x ∷ branches,
        branch_step (suc rounds) x (map (λ x. some x) xs) (none ∷ map (λ x. some x) rest) branches
            known path,
        r,
        root_step (suc rounds) mutated first x xs (hash_pair sha256 first x ∷ rest) r
            (next_level_pair (hash_pair sha256) first x xs) tree,
        same,
      )

  -- For any coinbase and any transactions, whatever the hash, the branches computed without the
  -- coinbase are all known, and folding them over the coinbase's id gives the root that the whole
  -- tree has with the coinbase first; both loops end.
  pub merkle_branches-merkle_tree_root :
      (coinbase : Hash) (txids : List Hash)
      → (branches : List Hash) × (merkle_branches sha256 txids ≡ some branches)
        × (r : MerkleTreeRoot) × (merkle_tree_root sha256 (coinbase ∷ txids) ≡ some r)
        × (r.root ≡ merkle_root_from_branches sha256 coinbase branches)
  unfolding merkle_branches merkle_tree_root root_rounds merkle_root_from_branches
  merkle_branches-merkle_tree_root coinbase [] =
      ([], refl, record { root = coinbase; mutated = false }, refl, refl)
  merkle_branches-merkle_tree_root coinbase (t ∷ txids) =
      path_rounds (length (t ∷ txids)) false coinbase (t ∷ txids) (omega arith)
