-- ===== src/Server/Supply.antt =====
-- What a chain has paid out, against what handleStats reports as mined.
use earthion_blockchain_dev.Base.{
  ℕ, suc, ◌+◌, ◌^◌, ◌<◌, List, [], Bytes, ◌∷◌, length, ◌≡◌, refl, sym, ◌∙◌, ap, arith,
}
use earthion_blockchain_dev.Base.Int.{
  ℤ, pos, ◌+ℤ◌, +ℤ_zero, zero-+ℤ, +ℤ_assoc, sub64, sub64-pos_suc,
}
use earthion_blockchain_dev.Core.Types.{TxOutput, Transaction, Block}
use earthion_blockchain_dev.Core.Platform.{Platform}
use earthion_blockchain_dev.Core.Transaction.{coinbase_tx, set_unique_id}
use earthion_blockchain_dev.Core.Chain.{chain_height}
use earthion_blockchain_dev.Core.Reward.{get_block_reward, get_total_mined}
use earthion_blockchain_dev.Core.Reward.Supply.{
  rewards_below, rewards_below-suc, get_total_mined-eq,
}
use earthion_blockchain_dev.Wallet.{get_raw_address}
use earthion_blockchain_dev.Server.Node.{Node, success, stats_body, status_ok}
use earthion_blockchain_dev.Server.Json.{StatsJson}
use earthion_blockchain_dev.Server.Handlers.{handle_stats}
use earthion_blockchain_dev.Server.Minted.{AllMinted, IsMintedChain, reward_tx}
use earthion_blockchain_dev.Server.Answers.{Minable}
use earthion_blockchain_dev.Server.Reachable.{Reachable, Reachable-IsSound}

-- The plain sum of all outputs.
abbrev pub outputs_sum : List TxOutput → ℤ
outputs_sum [] = pos 0
outputs_sum (o ∷ os) = o.value +ℤ outputs_sum os

abbrev pub txs_sum : List Transaction → ℤ
txs_sum [] = pos 0
txs_sum (tx ∷ txs) = outputs_sum tx.outputs +ℤ txs_sum txs

abbrev pub blocks_sum : List Block → ℤ
blocks_sum [] = pos 0
blocks_sum (b ∷ bs) = txs_sum b.transactions +ℤ blocks_sum bs

+ℤ_pos : (m n : ℕ) → pos m +ℤ pos n ≡ pos (m + n)
unfolding ◌+ℤ◌
+ℤ_pos m n = ground arith

module _ (p : Platform) (address : Bytes) where
  txs_sum-reward_tx :
      (place : ℕ) (h : Bytes)
      → txs_sum (reward_tx p address place h ∷ []) ≡ pos (get_block_reward (pos place))
  unfolding coinbase_tx set_unique_id
  txs_sum-reward_tx place h = +ℤ_zero _ ∙ +ℤ_zero _

  blocks_sum-AllMinted :
      (prev : Block) (place : ℕ) (bs : List Block)
      → AllMinted p address prev place bs
      → pos (rewards_below place) +ℤ blocks_sum bs ≡ pos (rewards_below (place + length bs))
  blocks_sum-AllMinted prev place [] h = +ℤ_zero _ ∙ ap (λ n. pos (rewards_below n)) (omega arith)
  blocks_sum-AllMinted prev place (b ∷ bs) h =
      let r = get_block_reward (pos place) in
      let paid : txs_sum b.transactions ≡ pos r =
        ap txs_sum h.0.pays ∙ txs_sum-reward_tx place prev.hash in
      ap (λ x. pos (rewards_below place) +ℤ (x +ℤ blocks_sum bs)) paid
      ∙ sym (+ℤ_assoc (pos (rewards_below place)) (pos r) (blocks_sum bs))
      ∙ ap (λ x. x +ℤ blocks_sum bs)
          (+ℤ_pos (rewards_below place) r ∙ ap pos (sym (rewards_below-suc place)))
      ∙ blocks_sum-AllMinted b (suc place) bs h.1
      ∙ ap (λ n. pos (rewards_below n)) (omega arith)

  blocks_sum-IsMintedChain :
      (blocks : List Block)
      → IsMintedChain p address blocks
      → pos (get_block_reward (pos 0)) +ℤ blocks_sum blocks ≡ pos (rewards_below (length blocks))
  unfolding get_block_reward
  blocks_sum-IsMintedChain blocks c =
      let genesis_none : blocks_sum blocks ≡ blocks_sum c.rest =
        ap blocks_sum c.whole
        ∙ ap (λ txs. txs_sum txs +ℤ blocks_sum c.rest) c.pays_none
        ∙ zero-+ℤ (blocks_sum c.rest) in
      ap (λ n. pos n +ℤ blocks_sum blocks) (sym first_height)
      ∙ ap (λ x. pos (rewards_below 1) +ℤ x) genesis_none
      ∙ blocks_sum-AllMinted c.genesis 1 c.rest c.minted
      ∙ ap (λ n. pos (rewards_below n)) (sym (ap length c.whole ∙ omega arith))
    where
      first_height : rewards_below 1 ≡ get_block_reward (pos 0)
      first_height = unfold rewards_below in refl

-- On every node that requests lead to from a fresh chain, if blocks can be mined and the chain is
-- shorter than 2^57 blocks, handleStats reports as mined what the outputs of the chain pay in total
-- and, on top of it, the reward of height 0, which the genesis block does not pay.
pub total_mined-eq :
    (p : Platform)
    → Minable p
    → {n : Node} → Reachable p n
    → length n.chain.blocks < 2 ^ 57
    → (s : StatsJson) × (handle_stats n ≡ success status_ok (stats_body s))
      × (s.total_mined ≡ pos (get_block_reward (pos 0)) +ℤ blocks_sum n.chain.blocks)
unfolding handle_stats chain_height
total_mined-eq p minable {n} reached short = (_, refl, reported)
  where
    minted : IsMintedChain p (get_raw_address p n.wallet) n.chain.blocks
    minted = (Reachable-IsSound p minable reached).minted

    size : length n.chain.blocks ≡ suc (length minted.rest)
    size = ap length minted.whole

    reported :
        get_total_mined (sub64 (pos (chain_height n.chain)) (pos 1))
        ≡ pos (get_block_reward (pos 0)) +ℤ blocks_sum n.chain.blocks
    reported =
        ap (λ k. get_total_mined (sub64 (pos k) (pos 1))) size
        ∙ ap get_total_mined (sub64-pos_suc (length minted.rest) (omega (arith, size)))
        ∙ get_total_mined-eq (length minted.rest) (omega (arith, size))
        ∙ ap (λ k. pos (rewards_below k)) (sym size)
        ∙ sym (blocks_sum-IsMintedChain p (get_raw_address p n.wallet) n.chain.blocks minted)
