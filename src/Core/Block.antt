-- ===== src/Core/Block.antt =====
-- core/block.go: a new block, mined on the chain that it extends.
pub mod Mined
use earthion_blockchain_dev.Base.{ℕ, List, [], ◌∷◌, map, Bytes, Bool, Option, none, some}
use earthion_blockchain_dev.Base.Int.{ℤ, pos}
use earthion_blockchain_dev.Crypto.Hash.{double_hash}
use earthion_blockchain_dev.Crypto.Merkle.{new_merkle_tree, root_hash}
use earthion_blockchain_dev.Core.Types.{Transaction, Block}
use earthion_blockchain_dev.Core.Platform.{Platform}
use earthion_blockchain_dev.Core.Pow.{
  initial_difficulty, bound_difficulty, current_difficulty, run_pow,
}

-- The transaction IDs, as the leaves of the Merkle tree.
abbrev pub tx_hashes : List Transaction → List Bytes
tx_hashes = map (λ tx. tx.id)

-- The difficulty of `NewBlock` before its bounds: nil and no blocks are the same.
abbrev pub starting_difficulty : List Block → ℕ
starting_difficulty [] = initial_difficulty
starting_difficulty (b ∷ bs) = current_difficulty (b ∷ bs)

module _ (p : Platform) where
  -- The Merkle root of `NewBlock`: no transactions have the hash of no bytes.
  unfoldable pub block_merkle_root : List Transaction → Bytes
  block_merkle_root [] = double_hash p.digest []
  block_merkle_root (tx ∷ txs) = root_hash (new_merkle_tree p.digest (tx_hashes (tx ∷ txs)))

  -- The block of `NewBlock` before it is mined; `now` is the Unix time.
  unfoldable pub candidate : ℤ → List Transaction → Bytes → ℤ → List Block → Block
  unfolding block_merkle_root
  candidate now txs prev_hash index prev_blocks = record {
    index = index;
    timestamp = now;
    prev_hash = prev_hash;
    merkle_root = block_merkle_root txs;
    hash = [];
    nonce = pos 0;
    difficulty = bound_difficulty (starting_difficulty prev_blocks);
    transactions = txs;
  }

  -- `block.Nonce` and `block.Hash` from `Run`.
  unfoldable pub with_proof : Block → ℕ × Bytes → Block
  with_proof b (nonce, hash) = record b { nonce = pos nonce; hash = hash }

  -- `NewBlock`
  unfoldable pub new_block : ℤ → List Transaction → Bytes → ℤ → List Block → Block
  unfolding candidate with_proof
  new_block now txs prev_hash index prev_blocks =
      let b = candidate now txs prev_hash index prev_blocks in with_proof b (run_pow p b)

  -- `GenesisBlock`
  unfoldable pub genesis_block : ℤ → Block
  unfolding new_block
  genesis_block now = new_block now [] [] (pos 0) []
