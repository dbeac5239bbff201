-- ===== src/Crypto/Merkle/Tests.antt =====
-- The Merkle theorems at concrete hashes.
use earthion_blockchain_dev.Base.{List, [], ◌∷◌, ◌++◌, Bytes, replicate, ◌≡◌, refl, true, arith}
use earthion_blockchain_dev.Crypto.Hash.{double_hash, toy_digest}
use earthion_blockchain_dev.Crypto.Merkle.{new_merkle_tree, root_hash, verify_merkle_proof}
use earthion_blockchain_dev.Crypto.Merkle.Build.{new_merkle_tree-double}
use earthion_blockchain_dev.Crypto.Merkle.Audit.{merkle_path, verify_merkle_proof_complete}

abbrev three : List Bytes
three = (1 ∷ []) ∷ (2 ∷ []) ∷ (3 ∷ []) ∷ []

root_runs : root_hash (new_merkle_tree toy_digest three) ≡ replicate 31 0 ++ 21 ∷ []
unfolding root_hash new_merkle_tree double_hash
root_runs = refl

new_merkle_tree-double_example :
    new_merkle_tree toy_digest (three ++ (3 ∷ []) ∷ []) ≡ new_merkle_tree toy_digest three
new_merkle_tree-double_example =
    new_merkle_tree-double toy_digest ((1 ∷ []) ∷ (2 ∷ []) ∷ []) (3 ∷ []) (omega arith)

verify_merkle_proof_complete_example :
    verify_merkle_proof toy_digest
      (3 ∷ [])
      (root_hash (new_merkle_tree toy_digest three))
      (merkle_path toy_digest three 2)
      2
    ≡ true
verify_merkle_proof_complete_example = verify_merkle_proof_complete toy_digest three 2 (3 ∷ []) refl
