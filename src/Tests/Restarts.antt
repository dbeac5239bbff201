-- ===== src/Tests/Restarts.antt =====
-- The theorem on a restart by another process, at the node of the first start with its first block.
use earthion_blockchain_dev.Base.{
  [], ◌∷◌, last?, some, true, false, ◌≡◌, ◌≢◌, refl, bytes_equal, bytes_equal_iff, Elem, inl, inr,
}
use earthion_blockchain_dev.Base.Map.{lookup, insert}
use earthion_blockchain_dev.Base.Outcome.{returns}
use earthion_blockchain_dev.Core.Platform.{toy_platform}
use earthion_blockchain_dev.Core.Types.{Block}
use earthion_blockchain_dev.Core.Block.{genesis_block, new_block}
use earthion_blockchain_dev.Core.Pow.{
  pow_hash, run_pow, meets_target, bound_difficulty, current_difficulty,
}
use earthion_blockchain_dev.Crypto.Hash.{hash, double_hash}
use earthion_blockchain_dev.Crypto.Merkle.{root_hash, new_merkle_tree}
use earthion_blockchain_dev.Core.Utils.{int_to_hex, itoa}
use earthion_blockchain_dev.Core.Transaction.{coinbase_tx, set_unique_id}
use earthion_blockchain_dev.Core.Reward.{get_block_reward}
use earthion_blockchain_dev.Wallet.{get_raw_address}
use earthion_blockchain_dev.Start.Process.{initialize_rejects}
use earthion_blockchain_dev.Base.Int.{pos, add64}
use earthion_blockchain_dev.Core.Chain.{
  new_blockchain, set_filename, rebuild_index, update_index, next_block, save_to_file,
}
use earthion_blockchain_dev.Core.Validate.{validate}
use earthion_blockchain_dev.Server.Node.{Node}
use earthion_blockchain_dev.Server.Answers.{
  IsSound, mined_block, pushed, mined_block-IsMinted, IsSound-pushed,
}
use earthion_blockchain_dev.Server.Reachable.{fresh_node}
use earthion_blockchain_dev.Start.{wallet_file, initialize, shutdown}
use earthion_blockchain_dev.Tests.Toy.{
  toy-Minable, keeper_gob, one_chain, env, boot, start_node, start_node-IsSound, start_node_short,
  toy_sha256-IsByte,
}
use earthion_blockchain_dev.Tests.Sessions.{next_platform, keeper_stays, keeper_key}

-- The node of the first start with its first block mined.
abbrev tip : Block
tip = genesis_block toy_platform (pos 100)

abbrev new_tip : Block
new_tip = mined_block toy_platform toy-Minable env start_node tip

abbrev mined_node : Node
mined_node = pushed toy_platform env new_tip start_node

start_tip : last? start_node.chain.blocks ≡ some tip
unfolding fresh_node new_blockchain set_filename rebuild_index
start_tip = refl

mined_node-IsSound : IsSound toy_platform mined_node
mined_node-IsSound =
    IsSound-pushed toy_platform toy-Minable env start_node tip new_tip start_tip start_node-IsSound
      (mined_block-IsMinted toy_platform toy-Minable env start_node tip start_tip start_node_short
        start_node-IsSound)

mined_on_top : Elem new_tip mined_node.chain.blocks
unfolding fresh_node new_blockchain set_filename rebuild_index update_index
mined_on_top = inr (inl refl)

new_tip_pays : new_tip.transactions ≢ []
unfolding next_block new_block
new_tip_pays = λ e. cc e

hashes_compare :
    bytes_equal
      (pow_hash next_platform new_tip new_tip.nonce)
      (pow_hash toy_platform new_tip new_tip.nonce)
    ≡ false
unfolding pow_hash next_block new_block bytes_equal double_hash hash int_to_hex genesis_block
    run_pow meets_target root_hash new_merkle_tree coinbase_tx set_unique_id get_block_reward
    fresh_node new_blockchain set_filename rebuild_index get_raw_address add64 bound_difficulty
    current_difficulty itoa
hashes_compare = refl

hashes_differ :
    pow_hash next_platform new_tip new_tip.nonce ≢ pow_hash toy_platform new_tip new_tip.nonce
hashes_differ e = cc (hashes_compare, (bytes_equal_iff _ _).1 e)

mined_wallet : lookup wallet_file mined_node.disk ≡ some (1 ∷ [])
unfolding lookup fresh_node insert bytes_equal save_to_file update_index set_filename
mined_wallet = refl

initialize_rejects_example :
    (validate toy_platform mined_node.chain.blocks ≡ returns true)
    × ((n' : Node) × (initialize next_platform keeper_gob
            (one_chain mined_node.chain.blocks)
            boot
            (shutdown (one_chain mined_node.chain.blocks) true mined_node)
          ≡ returns (some n'))
        × (n'.chain.blocks ≡ mined_node.chain.blocks)
        × (validate next_platform n'.chain.blocks ≡ returns false))
initialize_rejects_example =
    initialize_rejects toy_platform next_platform keeper_gob (one_chain mined_node.chain.blocks)
      boot mined_node (1 ∷ []) new_tip mined_node-IsSound mined_on_top new_tip_pays hashes_differ
      toy_sha256-IsByte mined_wallet keeper_stays keeper_key refl
