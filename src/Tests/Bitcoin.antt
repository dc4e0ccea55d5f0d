-- ===== src/Tests/Bitcoin.antt =====
-- Merkle paths and transactions at fixed inputs; the hash is a sum of bytes in place of SHA-256.
use ratum.Base.{ℕ, ◌+◌, ◌%◌, ◌≡◌, refl, arith, List, [], ◌∷◌, Option, none, some, ok, replicate}
use ratum.Base.Bytes.{le_bytes}
use ratum.Bitcoin.Merkle.{
  Hash, MerkleTreeRoot, merkle_branches, merkle_tree_root, merkle_root_from_branches, sha256d,
}
use ratum.Bitcoin.Merkle.Path.{merkle_branches-merkle_tree_root}
use ratum.Bitcoin.Transaction.{TxOut, txid, parse_coinbase}
use ratum.Bitcoin.Transaction.Txid.{Transaction, Fits, serialize, txid-serialize}
use ratum.Bitcoin.Transaction.Coinbase.{coinbase, parsed, parse_coinbase-serialize}

abbrev total : List ℕ → ℕ
total [] = 7
total (x ∷ xs) = (x + total xs) % 256

abbrev sum_hash : List ℕ → Hash
sum_hash bytes = total bytes ∷ []

abbrev txids : List Hash
txids = (1 ∷ []) ∷ (2 ∷ []) ∷ (3 ∷ []) ∷ (4 ∷ []) ∷ []

merkle_branches-merkle_tree_root_example :
    (branches : List Hash) × (merkle_branches sum_hash txids ≡ some branches)
    × (r : MerkleTreeRoot) × (merkle_tree_root sum_hash ((9 ∷ []) ∷ txids) ≡ some r)
    × (r.root ≡ merkle_root_from_branches sum_hash (9 ∷ []) branches)
merkle_branches-merkle_tree_root_example = merkle_branches-merkle_tree_root sum_hash (9 ∷ []) txids

abbrev paid : List TxOut
paid =
    record { value = 50; script_pubkey = 81 ∷ [] }
    ∷ record { value = 0; script_pubkey = 106 ∷ 1 ∷ 2 ∷ [] }
    ∷ []

abbrev witness : Option (List (List (List ℕ)))
witness = some ((replicate 32 0 ∷ []) ∷ [])

abbrev segwit_coinbase : Transaction
segwit_coinbase = coinbase 2 500 (3 ∷ 1 ∷ 2 ∷ 3 ∷ []) 4294967295 paid witness

segwit_coinbase-Fits : Fits segwit_coinbase
unfolding le_bytes
segwit_coinbase-Fits = record {
  version = omega arith;
  lock_time = omega arith;
  some_inputs = omega arith;
  inputs = (omega arith, ((refl, omega arith, refl), tt));
  outputs = (omega arith, ((omega arith, omega arith), ((omega arith, omega arith), tt)));
  stacks = (refl, ((omega arith, (omega arith, tt)), tt));
}

txid-serialize_example :
    txid sum_hash (serialize segwit_coinbase)
    ≡ ok (sha256d sum_hash (serialize (record segwit_coinbase { stacks = none })))
txid-serialize_example = txid-serialize sum_hash segwit_coinbase segwit_coinbase-Fits

parse_coinbase-serialize_example :
    parse_coinbase (serialize segwit_coinbase)
    ≡ ok (parsed 2 500 (3 ∷ 1 ∷ 2 ∷ 3 ∷ []) 4294967295 paid witness)
parse_coinbase-serialize_example =
    parse_coinbase-serialize 2 500 (3 ∷ 1 ∷ 2 ∷ 3 ∷ []) 4294967295 paid witness segwit_coinbase-Fits
      (omega arith)
