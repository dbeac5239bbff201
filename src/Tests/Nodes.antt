-- ===== src/Tests/Nodes.antt =====
-- The theorems on the server, at the node of the first start.
use mathlib.Core.List.Perm
use earthion_blockchain_dev.Base.{
  [], ◌∷◌, none, some, true, length, replicate, ◌≡◌, refl, last?, arith,
}
use earthion_blockchain_dev.Base.Int.{pos, add64, ◌+ℤ◌}
use earthion_blockchain_dev.Base.Format.{outpoint_key}
use earthion_blockchain_dev.Base.Map.{lookup}
use earthion_blockchain_dev.Base.Outcome.{returns}
use earthion_blockchain_dev.Core.Types.{Block}
use earthion_blockchain_dev.Core.Platform.{toy_platform}
use earthion_blockchain_dev.Core.Reward.{get_block_reward}
use earthion_blockchain_dev.Core.Utxo.{get_balance, utxo_index}
use earthion_blockchain_dev.Core.Validate.{validate}
use earthion_blockchain_dev.Wallet.{get_raw_address}
use earthion_blockchain_dev.Server.Json.{StatsJson, block_to_json}
use earthion_blockchain_dev.Server.Node.{
  Node, Response, ApiError, mine, success, failure, block_body, stats_body, status_ok,
  status_created, status_bad_request,
}
use earthion_blockchain_dev.Server.Handlers.{
  append_block, mining_reward, handle_mine, handle_stats, handle_create_transaction,
}
use earthion_blockchain_dev.Server.Minted.{IsMinted}
use earthion_blockchain_dev.Server.Answers.{IsSound, pushed, handle_mine-IsMinted}
use earthion_blockchain_dev.Server.Reachable.{
  Reachable, IsAnswered, handle-IsAnswered, Reachable-validate, fresh_node,
}
use earthion_blockchain_dev.Server.Refusal.{handle_create_transaction_refuses}
use earthion_blockchain_dev.Server.Earned.{handle_mine-get_balance}
use earthion_blockchain_dev.Server.Supply.{blocks_sum, total_mined-eq}
use earthion_blockchain_dev.Tests.Toy.{
  toy-Minable, env, start_node, start_node-Reachable, start_node-IsSound, start_node_short,
  length-start_node,
}
use earthion_blockchain_dev.Core.Chain.{set_filename, new_blockchain}
use earthion_blockchain_dev.Core.Block.{genesis_block}

handle-IsAnswered_example : IsAnswered toy_platform env mine start_node
handle-IsAnswered_example =
    handle-IsAnswered toy_platform toy-Minable env mine start_node start_node_short
      start_node-IsSound

-- The node after mining.
abbrev mined_node : Node
mined_node = handle-IsAnswered_example.0

mined_node-Reachable : Reachable toy_platform mined_node
mined_node-Reachable =
    Reachable.step env mine handle-IsAnswered_example.1 start_node-Reachable start_node_short
      handle-IsAnswered_example.2

Reachable-validate_example : validate toy_platform mined_node.chain.blocks ≡ returns true
Reachable-validate_example = Reachable-validate toy_platform toy-Minable mined_node-Reachable

handle_mine-IsMinted_example :
    (tip : Block) × (b : Block) × (last? start_node.chain.blocks ≡ some tip)
    × IsMinted toy_platform
        (get_raw_address toy_platform start_node.wallet)
        tip
        (length start_node.chain.blocks)
        b
    × (append_block toy_platform env (mining_reward toy_platform env start_node ∷ []) start_node
        ≡ returns (pushed toy_platform env b start_node))
    × (handle_mine toy_platform env start_node
        ≡ returns (
          pushed toy_platform env b start_node,
          success status_created (block_body (block_to_json b)),
        ))
    × IsSound toy_platform (pushed toy_platform env b start_node)
handle_mine-IsMinted_example =
    handle_mine-IsMinted toy_platform toy-Minable env start_node start_node_short start_node-IsSound

handle_create_transaction_refuses_example :
    (e : ApiError) × (handle_create_transaction toy_platform env
        (some (record { to = replicate 40 b'0'; amount = pos 3 }))
        start_node
      ≡ returns (start_node, failure status_bad_request e))
handle_create_transaction_refuses_example =
    handle_create_transaction_refuses toy_platform env
      (some (record { to = replicate 40 b'0'; amount = pos 3 })) start_node

-- The genesis block has no outputs.
nothing_unspent : utxo_index start_node.chain.blocks ≡ []
unfolding utxo_index fresh_node set_filename new_blockchain genesis_block
nothing_unspent = refl

fresh_id :
    lookup
      (outpoint_key (mining_reward toy_platform env start_node).id (pos 0))
      (utxo_index start_node.chain.blocks)
    ≡ none
unfolding lookup
fresh_id = rw nothing_unspent refl

handle_mine-get_balance_example :
    (n' : Node) × (r : Response) × (handle_mine toy_platform env start_node ≡ returns (n', r))
    × (get_balance env.visit (get_raw_address toy_platform start_node.wallet) n'.chain.blocks
        ≡ add64
            (get_balance env.visit
              (get_raw_address toy_platform start_node.wallet)
              start_node.chain.blocks)
            (pos (get_block_reward (pos (length start_node.chain.blocks)))))
handle_mine-get_balance_example =
    handle_mine-get_balance toy_platform toy-Minable env start_node start_node_short
      start_node-IsSound (λ m. Perm.refl m) fresh_id

total_mined-eq_example :
    (s : StatsJson) × (handle_stats start_node ≡ success status_ok (stats_body s))
    × (s.total_mined ≡ pos (get_block_reward (pos 0)) +ℤ blocks_sum start_node.chain.blocks)
total_mined-eq_example =
    total_mined-eq toy_platform toy-Minable start_node-Reachable (omega (arith, length-start_node))
