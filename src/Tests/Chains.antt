-- ===== src/Tests/Chains.antt =====
-- The theorems on whole chains, at the sample chain.
use earthion_blockchain_dev.Base.{
  ℕ, [], ◌∷◌, Option, none, some, ◌≡◌, ◌↔◌, refl, arith, bytes_equal,
}
use earthion_blockchain_dev.Base.Int.{pos, add64}
use earthion_blockchain_dev.Base.Format.{outpoint_key, hex_encode, format_int}
use earthion_blockchain_dev.Base.Map.{IsMap, lookup, erase, insert}
use earthion_blockchain_dev.Base.Outcome.{returns}
use earthion_blockchain_dev.Core.Types.{Block}
use earthion_blockchain_dev.Core.Platform.{toy_platform}
use earthion_blockchain_dev.Core.Chain.{Blockchain, rebuild_index, next_block, extend, get_block}
use earthion_blockchain_dev.Core.Chain.Index.{IsIndexed, rebuild_index-IsIndexed}
use earthion_blockchain_dev.Core.Chain.Extend.{push_block, IsNumbered, extend-IsIndexed}
use earthion_blockchain_dev.Core.Chain.Search.{IsBlockAnswer, get_block-IsBlockAnswer}
use earthion_blockchain_dev.Core.Fork.{attempt_reorg, resolve_forks}
use earthion_blockchain_dev.Core.Fork.Reorg.{IsReorg, attempt_reorg-IsReorg}
use earthion_blockchain_dev.Core.Fork.Resolve.{IsForkResult, resolve_forks-IsForkResult}
use earthion_blockchain_dev.Core.Validate.{validate, merkle_root_matches}
use earthion_blockchain_dev.Core.Validate.Spending.{Distinct}
use earthion_blockchain_dev.Core.Validate.Sound.{AllGood, blocks_keys, validate_sound}
use earthion_blockchain_dev.Core.Validation.{validate_chain}
use earthion_blockchain_dev.Core.Validation.Blocks.{AllValid, validate_chain_iff}
use earthion_blockchain_dev.Core.Utxo.{utxo_index}
use earthion_blockchain_dev.Core.Utxo.Unspent.{Unspent, history, utxo_index_iff}
use earthion_blockchain_dev.Tests.Samples.{coinbase, genesis, block_one, chain}
use earthion_blockchain_dev.Core.Pow.{validate_pow, pow_hash, meets_target}
use earthion_blockchain_dev.Crypto.Hash.{double_hash}
use earthion_blockchain_dev.Core.Utils.{int_to_hex}
use earthion_blockchain_dev.Crypto.Merkle.{root_hash, new_merkle_tree}
use earthion_blockchain_dev.Core.Transaction.{is_coinbase, verify}

validate_sound_example :
    (genesis.prev_hash ≡ [])
    × AllGood toy_platform genesis (block_one ∷ [])
    × Distinct (blocks_keys (block_one ∷ []))
unfolding validate bytes_equal validate_pow pow_hash double_hash int_to_hex meets_target root_hash
    new_merkle_tree is_coinbase lookup verify
validate_sound_example = validate_sound toy_platform genesis (block_one ∷ []) refl

validate_chain_iff_example :
    (validate_chain toy_platform (pos 90) (genesis ∷ block_one ∷ []) ≡ returns none)
    ↔ ((genesis.prev_hash ≡ []) × AllValid toy_platform (pos 90) genesis (block_one ∷ []))
validate_chain_iff_example = validate_chain_iff toy_platform (pos 90) genesis (block_one ∷ [])

-- The sample chain is one that ValidateChain accepts.
validate_chain_runs : validate_chain toy_platform (pos 90) (genesis ∷ block_one ∷ []) ≡ returns none
unfolding validate_chain bytes_equal add64 validate_pow pow_hash double_hash int_to_hex meets_target
    merkle_root_matches root_hash new_merkle_tree is_coinbase verify
validate_chain_runs = refl

utxo_index_iff_example :
    (lookup (outpoint_key (2 ∷ []) (pos 0)) (utxo_index chain.blocks)
      ≡ some (record { value = pos 20; pub_key = 8 ∷ [] }))
    ↔ Unspent (2 ∷ []) 0 (record { value = pos 20; pub_key = 8 ∷ [] }) (history chain.blocks)
utxo_index_iff_example =
    utxo_index_iff chain.blocks (2 ∷ []) 0 (record { value = pos 20; pub_key = 8 ∷ [] })

-- The output of the coinbase is spent, the first one of the payment is not.
utxo_index_runs :
    (lookup (outpoint_key (1 ∷ []) (pos 0)) (utxo_index chain.blocks) ≡ none)
    × (lookup (outpoint_key (2 ∷ []) (pos 0)) (utxo_index chain.blocks)
        ≡ some (record { value = pos 20; pub_key = 8 ∷ [] }))
unfolding utxo_index lookup erase insert bytes_equal outpoint_key hex_encode format_int
utxo_index_runs = (refl, refl)

utxos_IsMap : IsMap (utxo_index chain.blocks)
unfolding utxo_index IsMap erase insert bytes_equal outpoint_key hex_encode format_int lookup
utxos_IsMap = (refl, (refl, tt))

chain_IsNumbered : IsNumbered (rebuild_index chain)
unfolding rebuild_index
chain_IsNumbered tip e = cc e

extend-IsIndexed_example :
    let bc = rebuild_index chain in
    let b = next_block toy_platform (pos 200) (coinbase ∷ []) block_one bc.blocks in
    (extend toy_platform (pos 200) (coinbase ∷ []) bc ≡ returns (push_block b bc))
    × (b.prev_hash ≡ block_one.hash)
    × (b.transactions ≡ coinbase ∷ [])
    × IsNumbered (push_block b bc)
    × IsIndexed (push_block b bc)
unfolding rebuild_index
extend-IsIndexed_example =
    extend-IsIndexed toy_platform (pos 200) (coinbase ∷ []) (rebuild_index chain) block_one refl
      (omega arith) chain_IsNumbered (rebuild_index-IsIndexed chain)

get_block-IsBlockAnswer_example :
    (o : Option Block) × (get_block block_one.hash (rebuild_index chain) ≡ returns o)
    × IsBlockAnswer block_one.hash (rebuild_index chain).blocks o
get_block-IsBlockAnswer_example =
    get_block-IsBlockAnswer block_one.hash (rebuild_index chain) (rebuild_index-IsIndexed chain)

attempt_reorg-IsReorg_example :
    IsReorg toy_platform chain.alt_chains chain (attempt_reorg toy_platform chain)
attempt_reorg-IsReorg_example = attempt_reorg-IsReorg toy_platform chain

resolve_forks-IsForkResult_example :
    (bc' : Blockchain) × (count : ℕ) × (resolve_forks chain ≡ returns (bc', count))
    × IsForkResult chain bc' count
resolve_forks-IsForkResult_example = resolve_forks-IsForkResult chain (λ e. cc e)
