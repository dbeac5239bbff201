-- ===== src/Crypto/Merkle/Build.antt =====
-- Building the tree ends, and what the root depends on.
use earthion_blockchain_dev.Base.{
  ℕ, zero, suc, ◌+◌, ◌*◌, ◌%◌, ◌≤◌, ◌<◌, List, [], ◌∷◌, ◌++◌, map, some, Bytes, length,
  length-append, ◌≡◌, ◌≢◌, refl, arith, ap, sym, ◌∙◌,
}
use earthion_blockchain_dev.Crypto.Hash.{Digest, double_hash}
use earthion_blockchain_dev.Crypto.Merkle.{
  MerkleNode, leaf, branch, node_hash, join_nodes, next_level, build_levels, new_merkle_tree,
}

module _ (dg : Digest) where
  -- The hash of every inner node is the double hash of its children's hashes.
  abbrev pub IsHashed : MerkleNode → Type 0
  IsHashed (leaf h) = Unit
  IsHashed (branch l r h) =
      (h ≡ double_hash dg (node_hash l ++ node_hash r)) × IsHashed l × IsHashed r

  abbrev AllHashed : List MerkleNode → Type 0
  AllHashed [] = Unit
  AllHashed (n ∷ ns) = IsHashed n × AllHashed ns

  length-next_level : (ns : List MerkleNode) → 2 * length (next_level dg ns) ≤ length ns + 1
  unfolding next_level
  length-next_level [] = omega arith
  length-next_level (a ∷ []) = omega arith
  length-next_level (a ∷ b ∷ r) = omega (arith, length-next_level r)

  next_level_pos : (ns : List MerkleNode) → 0 < length ns → 0 < length (next_level dg ns)
  unfolding next_level
  next_level_pos [] h = h
  next_level_pos (a ∷ []) h = omega arith
  next_level_pos (a ∷ b ∷ r) h = omega arith

  next_level-AllHashed : (ns : List MerkleNode) → AllHashed ns → AllHashed (next_level dg ns)
  unfolding next_level join_nodes
  next_level-AllHashed [] h = tt
  next_level-AllHashed (a ∷ []) h = ((refl, h.0, h.0), tt)
  next_level-AllHashed (a ∷ b ∷ r) (ha, (hb, hr)) = ((refl, ha, hb), next_level-AllHashed r hr)

  -- As many rounds as there are nodes are enough, and the node that is left is hashed.
  pub build_levels_total :
      (fuel : ℕ) (ns : List MerkleNode)
      → 0 < length ns
      → length ns ≤ fuel
      → AllHashed ns
      → (n : MerkleNode) × (build_levels dg fuel ns ≡ some n) × IsHashed n
  unfolding build_levels
  build_levels_total zero ns p h k = absurd (omega arith)
  build_levels_total (suc fuel) [] p h k = absurd (omega arith)
  build_levels_total (suc fuel) (n ∷ []) p h k = (n, refl, k.0)
  build_levels_total (suc fuel) (a ∷ b ∷ r) p h k =
      build_levels_total fuel (next_level dg (a ∷ b ∷ r)) (next_level_pos (a ∷ b ∷ r) (omega arith))
        (omega (arith, length-next_level (a ∷ b ∷ r))) (next_level-AllHashed (a ∷ b ∷ r) k)

  -- More rounds change nothing.
  pub build_levels_more :
      (fuel more : ℕ) (ns : List MerkleNode) {n : MerkleNode}
      → fuel ≤ more
      → build_levels dg fuel ns ≡ some n
      → build_levels dg more ns ≡ some n
  unfolding build_levels
  build_levels_more zero more ns h e = cc
  build_levels_more (suc fuel) zero ns h e = absurd (omega arith)
  build_levels_more (suc fuel) (suc more) [] h e = cc
  build_levels_more (suc fuel) (suc more) (n ∷ []) h e = e
  build_levels_more (suc fuel) (suc more) (a ∷ b ∷ r) h e =
      build_levels_more fuel more (next_level dg (a ∷ b ∷ r)) (omega arith) e

  leaves-AllHashed : (hs : List Bytes) → AllHashed (map leaf hs)
  leaves-AllHashed [] = tt
  leaves-AllHashed (h ∷ hs) = (tt, leaves-AllHashed hs)

  length-leaves : (hs : List Bytes) → length (map leaf hs) ≡ length hs
  length-leaves [] = refl
  length-leaves (h ∷ hs) = ap suc (length-leaves hs)

  -- The tree over one or more hashes exists: the loop ends. Each inner node holds the double hash
  -- of its children's hashes.
  pub new_merkle_tree_total :
      (hs : List Bytes) → hs ≢ [] → (n : MerkleNode) × (new_merkle_tree dg hs ≡ some n) × IsHashed n
  unfolding new_merkle_tree
  new_merkle_tree_total [] h = absurd (h refl)
  new_merkle_tree_total (a ∷ []) h =
      build_levels_total 2 (leaf a ∷ leaf a ∷ []) (omega arith) (omega arith) (tt, (tt, tt))
  new_merkle_tree_total (a ∷ b ∷ hs) h =
      build_levels_total (length (a ∷ b ∷ hs)) (map leaf (a ∷ b ∷ hs)) (omega arith)
        (omega (arith, length-leaves hs)) (leaves-AllHashed (a ∷ b ∷ hs))

  -- The next level of a list of odd length is the same with its last node doubled.
  next_level-double :
      (ns : List MerkleNode) (n : MerkleNode)
      → length ns % 2 ≡ 0
      → next_level dg (ns ++ n ∷ n ∷ []) ≡ next_level dg (ns ++ n ∷ [])
  unfolding next_level
  next_level-double [] n h = refl
  next_level-double (a ∷ []) n h = absurd (omega arith)
  next_level-double (a ∷ b ∷ r) n h = rw (next_level-double r n (omega arith))

  map_leaf-append : (xs ys : List Bytes) → map leaf (xs ++ ys) ≡ map leaf xs ++ map leaf ys
  map_leaf-append [] ys = refl
  map_leaf-append (x ∷ xs) ys = ap (◌∷◌ (leaf x)) (map_leaf-append xs ys)

  build_levels-double :
      (f g : ℕ) (a b : MerkleNode) (r : List MerkleNode) (n : MerkleNode) {t : MerkleNode}
      → f ≤ g
      → length r % 2 ≡ 0
      → build_levels dg (suc f) (a ∷ b ∷ (r ++ n ∷ [])) ≡ some t
      → build_levels dg (suc g) (a ∷ b ∷ (r ++ n ∷ n ∷ [])) ≡ some t
  unfolding build_levels next_level
  build_levels-double f g a b r n h e p =
      rw (next_level-double r n e)
        (build_levels_more f g (join_nodes dg a b ∷ next_level dg (r ++ n ∷ [])) h p)

  new_merkle_tree-double_some :
      (a b : Bytes) (r : List Bytes) (h : Bytes) {t : MerkleNode}
      → length r % 2 ≡ 0
      → new_merkle_tree dg (a ∷ b ∷ (r ++ h ∷ [])) ≡ some t
      → new_merkle_tree dg (a ∷ b ∷ (r ++ h ∷ h ∷ [])) ≡ some t
  unfolding new_merkle_tree
  new_merkle_tree-double_some a b r h e p = rw (map_leaf-append r (h ∷ h ∷ [])) (
      build_levels-double (suc (length (r ++ h ∷ []))) (suc (length (r ++ h ∷ h ∷ []))) (leaf a)
        (leaf b) (map leaf r) (leaf h)
        (omega (arith, length-append r (h ∷ []), length-append r (h ∷ h ∷ [])))
        (rw (length-leaves r) e) (rw (map_leaf-append r (h ∷ [])) at p))

  -- A transaction list of odd length has the same tree, and so the same Merkle root, as the list
  -- with its last transaction repeated.
  pub new_merkle_tree-double :
      (hs : List Bytes) (h : Bytes)
      → length hs % 2 ≡ 0
      → new_merkle_tree dg (hs ++ h ∷ h ∷ []) ≡ new_merkle_tree dg (hs ++ h ∷ [])
  new_merkle_tree-double [] h e = unfold new_merkle_tree in refl
  new_merkle_tree-double (a ∷ []) h e = absurd (omega arith)
  new_merkle_tree-double (a ∷ b ∷ r) h e =
      let t = new_merkle_tree_total (a ∷ b ∷ (r ++ h ∷ [])) (λ p. cc p) in
      new_merkle_tree-double_some a b r h (omega arith) t.1 ∙ sym t.1
