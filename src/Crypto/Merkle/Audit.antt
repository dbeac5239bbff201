-- ===== src/Crypto/Merkle/Audit.antt =====
-- VerifyMerkleProof accepts the audit path of every transaction: the hashes beside the way from the
-- leaf up to the root, in the order in which the verifier consumes them.
use earthion_blockchain_dev.Base.{
  ℕ, zero, suc, ◌/◌, ◌%◌, List, [], ◌∷◌, ◌++◌, map, some, Bytes, length, ◌≡◌, ◌≢◌, refl, arith, ap,
  sym, ◌∙◌, get_elem?, subst, bytes_equal_refl, true, ◌==◌, if◌then◌else◌,
}
use earthion_blockchain_dev.Crypto.Hash.{Digest, double_hash}
use earthion_blockchain_dev.Crypto.Merkle.Build.{new_merkle_tree_total}
use earthion_blockchain_dev.Crypto.Merkle.{
  MerkleNode, leaf, node_hash, join_nodes, next_level, build_levels, new_merkle_tree, root_hash,
  climb, verify_merkle_proof, merkle_proof,
}

module _ (dg : Digest) where
  -- The hash beside position `i` of a level: its right neighbour, itself where there is none, or its
  -- left neighbour.
  abbrev sibling : List MerkleNode → ℕ → Bytes
  sibling [] i = []
  sibling (a ∷ []) i = node_hash a
  sibling (a ∷ b ∷ r) zero = node_hash b
  sibling (a ∷ b ∷ r) (suc zero) = node_hash a
  sibling (a ∷ b ∷ r) (suc (suc i)) = sibling r i

  -- The audit path of position `i`, from the leaf's level up.
  audit_path : ℕ → List MerkleNode → ℕ → List Bytes
  audit_path zero ns i = []
  audit_path (suc fuel) [] i = []
  audit_path (suc fuel) (n ∷ []) i = []
  audit_path (suc fuel) (a ∷ b ∷ r) i =
      sibling (a ∷ b ∷ r) i ∷ audit_path fuel (next_level dg (a ∷ b ∷ r)) (i / 2)

  parent_hash : List MerkleNode → ℕ → Bytes → Bytes
  parent_hash ns i h = double_hash dg (if i % 2 == 0 then h ++ sibling ns i else sibling ns i ++ h)

  get_elem?-next_level :
      (ns : List MerkleNode) (i : ℕ) (n : MerkleNode)
      → get_elem? ns i ≡ some n
      → (m : MerkleNode) × (get_elem? (next_level dg ns) (i / 2) ≡ some m)
        × (node_hash m ≡ parent_hash ns i (node_hash n))
  unfolding next_level join_nodes parent_hash
  get_elem?-next_level [] i n h = absurd (cc h)
  get_elem?-next_level (a ∷ []) zero n h = (join_nodes dg a a, refl, ground arith)
  get_elem?-next_level (a ∷ []) (suc i) n h = absurd (cc h)
  get_elem?-next_level (a ∷ b ∷ r) zero n h = (join_nodes dg a b, refl, ground arith)
  get_elem?-next_level (a ∷ b ∷ r) (suc zero) n h = (join_nodes dg a b, refl, ground arith)
  get_elem?-next_level (a ∷ b ∷ r) (suc (suc i)) n h =
      let (m, e, p) = get_elem?-next_level r i n h in
      (m, rw (two_more_half i) e, rw (two_more_parity i) p)
    where
      two_more_half : (j : ℕ) → suc (suc j) / 2 ≡ suc (j / 2)
      two_more_half j = omega arith

      two_more_parity : (j : ℕ) → suc (suc j) % 2 ≡ j % 2
      two_more_parity j = omega arith

  node_hash_eq : (m n : MerkleNode) → m ≡ n → node_hash m ≡ node_hash n
  node_hash_eq m n e = ap node_hash e

  climb-audit_path :
      (fuel : ℕ) (ns : List MerkleNode) (i : ℕ) (n root : MerkleNode)
      → get_elem? ns i ≡ some n
      → build_levels dg fuel ns ≡ some root
      → climb dg (node_hash n) (audit_path fuel ns i) i ≡ node_hash root
  unfolding climb audit_path build_levels parent_hash
  climb-audit_path zero ns i n root h e = absurd (cc e)
  climb-audit_path (suc fuel) [] i n root h e = absurd (cc e)
  climb-audit_path (suc fuel) (a ∷ []) zero n root h e = node_hash_eq n root (cc (h, e))
  climb-audit_path (suc fuel) (a ∷ []) (suc i) n root h e = absurd (cc h)
  climb-audit_path (suc fuel) (a ∷ b ∷ r) i n root h e =
      let (m, em, pm) = get_elem?-next_level (a ∷ b ∷ r) i n h in
      ap (λ (h' : Bytes). climb dg h' (audit_path fuel (next_level dg (a ∷ b ∷ r)) (i / 2)) (i / 2))
        (sym pm)
      ∙ climb-audit_path fuel (next_level dg (a ∷ b ∷ r)) (i / 2) m root em e

  -- The nodes that NewMerkleTree starts from: one hash is doubled.
  abbrev leaf_nodes : List Bytes → List MerkleNode
  leaf_nodes [] = []
  leaf_nodes (h ∷ []) = leaf h ∷ leaf h ∷ []
  leaf_nodes (h ∷ k ∷ hs) = map leaf (h ∷ k ∷ hs)

  -- The audit path of the transaction at position `i`.
  unfoldable pub merkle_path : List Bytes → ℕ → List Bytes
  unfolding audit_path next_level
  merkle_path hs i = audit_path (length (leaf_nodes hs)) (leaf_nodes hs) i

  get_elem?-map_leaf :
      (hs : List Bytes) (i : ℕ) {h : Bytes}
      → get_elem? hs i ≡ some h
      → get_elem? (map leaf hs) i ≡ some (leaf h)
  get_elem?-map_leaf [] i e = absurd (cc e)
  get_elem?-map_leaf (k ∷ hs) zero e = cc e
  get_elem?-map_leaf (k ∷ hs) (suc i) e = get_elem?-map_leaf hs i e

  length-map_leaf : (hs : List Bytes) → length (map leaf hs) ≡ length hs
  length-map_leaf [] = refl
  length-map_leaf (h ∷ hs) = ap suc (length-map_leaf hs)

  climb-merkle_path :
      (hs : List Bytes) (i : ℕ) {h : Bytes} {root : MerkleNode}
      → get_elem? hs i ≡ some h
      → new_merkle_tree dg hs ≡ some root
      → climb dg h (merkle_path hs i) i ≡ node_hash root
  unfolding new_merkle_tree merkle_path
  climb-merkle_path [] i e r = absurd (cc e)
  climb-merkle_path (a ∷ []) zero {h} {root} e r =
      climb-audit_path 2 (leaf a ∷ leaf a ∷ []) 0 (leaf h) root (cc e) r
  climb-merkle_path (a ∷ []) (suc i) e r = absurd (cc e)
  climb-merkle_path (a ∷ b ∷ hs) i {h} {root} e r =
      climb-audit_path (length (map leaf (a ∷ b ∷ hs))) (map leaf (a ∷ b ∷ hs)) i (leaf h) root
        (get_elem?-map_leaf (a ∷ b ∷ hs) i e)
        (subst (λ f. build_levels dg f (map leaf (a ∷ b ∷ hs)) ≡ some root)
          (sym (length-map_leaf (a ∷ b ∷ hs))) r)

  -- The verifier is complete: at every position of every transaction list it accepts the audit path
  -- of the transaction that stands there against the root of the tree.
  pub verify_merkle_proof_complete :
      (hs : List Bytes) (i : ℕ) (h : Bytes)
      → get_elem? hs i ≡ some h
      → verify_merkle_proof dg h (root_hash (new_merkle_tree dg hs)) (merkle_path hs i) i ≡ true
  unfolding verify_merkle_proof root_hash
  verify_merkle_proof_complete hs i h e =
      let (root, r, _) = new_merkle_tree_total dg hs (nonempty hs e) in
      rw (r, climb-merkle_path hs i e r) (bytes_equal_refl (node_hash root))
    where
      nonempty : (ks : List Bytes) → get_elem? ks i ≡ some h → ks ≢ []
      nonempty [] p = absurd (cc p)
      nonempty (k ∷ ks) p = λ q. cc q

  -- With two transactions MerkleProof gives the audit path, and its proof verifies.
  pub verify-merkle_proof_two :
      (a b : Bytes)
      → let tree = new_merkle_tree dg (a ∷ b ∷ []) in
        (verify_merkle_proof dg a (root_hash tree) (merkle_proof tree 0) 0 ≡ true)
        × (verify_merkle_proof dg b (root_hash tree) (merkle_proof tree 1) 1 ≡ true)
  unfolding new_merkle_tree root_hash merkle_proof verify_merkle_proof join_nodes
  verify-merkle_proof_two a b = (bytes_equal_refl _, bytes_equal_refl _)
