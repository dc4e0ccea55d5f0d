-- ===== src/Bitcoin/Merkle.antt =====
-- core/src/bitcoin.rs, merkle roots and the branches of the coinbase's path.
--
-- A hash is the list of its bytes, and SHA-256, a library's, a parameter. A loop halves its level
-- and runs on a count of rounds; `none` in a result of a loop is a panic or a missing round, which
-- a theorem rules out.
pub mod Path
use ratum.Base.{
  same_bytes, ℕ, zero, suc, ◌%◌, List, [], ◌∷◌, ◌++◌, Option, none, some, Bool, true, false, ◌||◌,
  ◌==◌, if◌then◌else◌, length, map,
}

abbrev pub Hash : Type 0
Hash = List ℕ

module _ {ℓ} {A : Type ℓ} where
  -- `level.push(*level.last())`; the last of no entries is not asked for.
  unfoldable pub push_last : List A → List A
  push_last [] = []
  push_last (x ∷ []) = x ∷ x ∷ []
  push_last (x ∷ y ∷ xs) = x ∷ push_last (y ∷ xs)

  -- `as_chunks::<2>()`, each pair hashed.
  unfoldable pub hash_chunks : (A → A → A) → List A → List A
  hash_chunks hash [] = []
  hash_chunks hash (x ∷ []) = []
  hash_chunks hash (x ∷ y ∷ xs) = hash x y ∷ hash_chunks hash xs

  unfoldable pub next_level : (A → A → A) → List A → List A
  next_level hash level =
      hash_chunks hash (if length level % 2 == 1 then push_last level else level)

-- Whether a pair of a level is of equal hashes.
unfoldable pub equal_chunk : List Hash → Bool
equal_chunk [] = false
equal_chunk (x ∷ []) = false
equal_chunk (x ∷ y ∷ xs) = same_bytes x y || equal_chunk xs

pub record MerkleTreeRoot : Type 0 where
  pub root : Hash
  pub mutated : Bool

module _ (sha256 : List ℕ → Hash) where
  unfoldable pub sha256d : List ℕ → Hash
  sha256d data_bytes = sha256 (sha256 data_bytes)

  unfoldable pub hash_pair : Hash → Hash → Hash
  hash_pair left right = sha256d (left ++ right)

  -- `Some(hash_pair(&a?, &b?))`.
  unfoldable pub hash_known : Option Hash → Option Hash → Option Hash
  hash_known none b = none
  hash_known (some a) none = none
  hash_known (some a) (some b) = some (hash_pair a b)

  unfoldable pub merkle_root_from_branches : Hash → List Hash → Hash
  merkle_root_from_branches txid [] = txid
  merkle_root_from_branches txid (b ∷ branches) =
      merkle_root_from_branches (hash_pair txid b) branches

  unfoldable pub branch_rounds : ℕ → List (Option Hash) → Option (List Hash)
  branch_rounds zero level = none
  branch_rounds (suc rounds) [] = some []
  branch_rounds (suc rounds) (x ∷ []) = some []
  branch_rounds (suc rounds) (x ∷ none ∷ xs) = none
  branch_rounds (suc rounds) (x ∷ some b ∷ xs) =
      elim (branch_rounds rounds (next_level hash_known (x ∷ some b ∷ xs))) [
        | none ↦ none
        | some branches ↦ some (b ∷ branches)
      ]

  unfoldable pub merkle_branches : List Hash → Option (List Hash)
  merkle_branches [] = some []
  merkle_branches (t ∷ txids) =
      branch_rounds (suc (length (t ∷ txids))) (none ∷ map (λ x. some x) (t ∷ txids))

  unfoldable pub root_rounds : ℕ → Bool → List Hash → Option MerkleTreeRoot
  root_rounds zero mutated level = none
  root_rounds (suc rounds) mutated [] = none
  root_rounds (suc rounds) mutated (x ∷ []) = some (record { root = x; mutated = mutated })
  root_rounds (suc rounds) mutated (x ∷ y ∷ xs) =
      root_rounds rounds (mutated || equal_chunk (x ∷ y ∷ xs)) (next_level hash_pair (x ∷ y ∷ xs))

  -- `merkle_tree_root`, which has no answer for no transactions.
  unfoldable pub merkle_tree_root : List Hash → Option MerkleTreeRoot
  merkle_tree_root txids = root_rounds (length txids) false txids
