-- ===== src/Crypto/Merkle.antt =====
-- crypto/merkle.go: the tree over transaction IDs, its proofs, and their verification.
pub mod Build
pub mod Audit
mod Tests
use earthion_blockchain_dev.Base.{
  ℕ, zero, suc, ◌+◌, ◌-◌, ◌/◌, ◌%◌, List, [], ◌∷◌, ◌++◌, map, Option, none, some, Bytes,
  bytes_equal, Bool, length, ◌==◌, if◌then◌else◌,
}
use earthion_blockchain_dev.Crypto.Hash.{Digest, double_hash}

-- `MerkleNode`: a node has two children or none.
pub data MerkleNode : Type 0 where
  leaf : Bytes → MerkleNode
  branch : MerkleNode → MerkleNode → Bytes → MerkleNode

abbrev pub node_hash : MerkleNode → Bytes
node_hash (leaf h) = h
node_hash (branch l r h) = h

module _ (dg : Digest) where
  -- One node of the new level: `DoubleHash(left.Hash || right.Hash)`.
  pub join_nodes : MerkleNode → MerkleNode → MerkleNode
  join_nodes l r = branch l r (double_hash dg (node_hash l ++ node_hash r))

  -- One round of the loop that builds the tree: an odd last node is its own right neighbour.
  pub next_level : List MerkleNode → List MerkleNode
  unfolding join_nodes
  next_level [] = []
  next_level (a ∷ []) = join_nodes a a ∷ []
  next_level (a ∷ b ∷ r) = join_nodes a b ∷ next_level r

  -- `for len(nodes) > 1`, with fuel for the rounds.
  pub build_levels : ℕ → List MerkleNode → Option MerkleNode
  build_levels zero ns = none
  build_levels (suc fuel) [] = none
  build_levels (suc fuel) (n ∷ []) = some n
  build_levels (suc fuel) (a ∷ b ∷ r) = build_levels fuel (next_level (a ∷ b ∷ r))

  -- `NewMerkleTree`: `none` is the nil tree of no hashes; one hash is doubled.
  unfoldable pub new_merkle_tree : List Bytes → Option MerkleNode
  unfolding build_levels next_level
  new_merkle_tree [] = none
  new_merkle_tree (h ∷ []) = build_levels 2 (leaf h ∷ leaf h ∷ [])
  new_merkle_tree (h ∷ k ∷ hs) = build_levels (length (h ∷ k ∷ hs)) (map leaf (h ∷ k ∷ hs))

  -- `VerifyMerkleProof`, at an index that is not negative: the loop over the proof, then the test.
  pub climb : Bytes → List Bytes → ℕ → Bytes
  climb current [] index = current
  climb current (sibling ∷ proof) index =
      climb (double_hash dg (if index % 2 == 0 then current ++ sibling else sibling ++ current))
        proof (index / 2)

  pub verify_merkle_proof : Bytes → Bytes → List Bytes → ℕ → Bool
  unfolding climb
  verify_merkle_proof tx_hash merkle_root proof index =
      bytes_equal (climb tx_hash proof index) merkle_root

-- `RootHash`: the nil tree has the nil hash.
unfoldable pub root_hash : Option MerkleNode → Bytes
root_hash none = []
root_hash (some n) = node_hash n

-- `MerkleProof`, at an index that is not negative: from the root down, always into the left child.
pub proof_below : MerkleNode → ℕ → List Bytes
proof_below (leaf h) index = []
proof_below (branch l r h) index =
    (if index % 2 == 0 then node_hash r else node_hash l) ∷ proof_below l (index / 2)

pub merkle_proof : Option MerkleNode → ℕ → List Bytes
unfolding proof_below
merkle_proof none index = []
merkle_proof (some n) index = proof_below n index
