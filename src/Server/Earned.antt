-- ===== src/Server/Earned.antt =====
-- What handleMine does to the balance of the wallet.
use mathlib.Core.List.{Perm}
use earthion_blockchain_dev.Base.{
  ℕ, ◌^◌, ◌<◌, List, [], ◌∷◌, ◌++◌, none, some, Bytes, bytes_equal, bytes_equal_refl, length, last?,
  ◌≡◌, refl, sym, ◌∙◌, ap, Bool-cases, inl, inr,
}
use earthion_blockchain_dev.Base.Int.{pos, ◌+ℤ◌, +ℤ_zero, zero-+ℤ, +ℤ_assoc, add64, wrap64}
use earthion_blockchain_dev.Base.Format.{outpoint_key}
use earthion_blockchain_dev.Base.Map.{Map, lookup, insert}
use earthion_blockchain_dev.Base.Outcome.{returns}
use earthion_blockchain_dev.Core.Types.{TxOutput, Transaction, Block}
use earthion_blockchain_dev.Core.Platform.{Platform}
use earthion_blockchain_dev.Core.Transaction.{coinbase_tx, set_unique_id}
use earthion_blockchain_dev.Core.Reward.{get_block_reward}
use earthion_blockchain_dev.Core.Utxo.{
  add_outputs, remove_spent, apply_tx, apply_txs, apply_blocks, utxo_index, get_balance,
}
use earthion_blockchain_dev.Core.Utxo.Balance.{owned_value, owned, wrap64-add, get_balance-eq}
use earthion_blockchain_dev.Wallet.{get_raw_address}
use earthion_blockchain_dev.Server.Node.{Node, Env, Response}
use earthion_blockchain_dev.Server.Handlers.{mining_reward, handle_mine}
use earthion_blockchain_dev.Server.Minted.{reward_tx, IsMinted}
use earthion_blockchain_dev.Server.Answers.{
  Minable, IsSound, pushed, handle_mine-IsMinted, mining_reward-eq, blocks-pushed,
}

owned-insert :
    (address k : Bytes) (o : TxOutput) (m : Map TxOutput)
    → lookup k m ≡ none
    → owned address (insert k o m) ≡ owned address m +ℤ owned_value address (k, o)
unfolding lookup insert
owned-insert address k o [] fresh =
    +ℤ_zero (owned_value address (k, o)) ∙ sym (zero-+ℤ (owned_value address (k, o)))
owned-insert address k o ((j, w) ∷ m) fresh = elim (Bool-cases (bytes_equal j k)) [
  | inl same ↦ absurd (cc (rw (same, lookup) at fresh))
  | inr other ↦ rw other (
      ap (λ x. owned_value address (j, w) +ℤ x)
        (owned-insert address k o m (rw (other, lookup) at fresh))
      ∙ sym (+ℤ_assoc (owned_value address (j, w)) (owned address m) (owned_value address (k, o))))
]

apply_blocks-append :
    (m : Map TxOutput) (bs : List Block) (b : Block)
    → apply_blocks m (bs ++ b ∷ []) ≡ apply_txs (apply_blocks m bs) b.transactions
unfolding apply_blocks
apply_blocks-append m [] b = refl
apply_blocks-append m (c ∷ bs) b = apply_blocks-append (apply_txs m c.transactions) bs b

utxo_index-append :
    (bs : List Block) (b : Block)
    → utxo_index (bs ++ b ∷ []) ≡ apply_txs (utxo_index bs) b.transactions
unfolding utxo_index
utxo_index-append bs b = apply_blocks-append [] bs b

module _ (p : Platform) where
  -- The output of a reward.
  abbrev reward_output : Bytes → ℕ → TxOutput
  reward_output address place = record {
    value = pos (get_block_reward (pos place));
    pub_key = address;
  }

  apply_txs-reward_tx :
      (m : Map TxOutput) (address : Bytes) (place : ℕ) (h : Bytes)
      → let tx = reward_tx p address place h in
        apply_txs m (tx ∷ []) ≡ insert (outpoint_key tx.id (pos 0)) (reward_output address place) m
  unfolding apply_txs apply_tx add_outputs remove_spent coinbase_tx set_unique_id
  apply_txs-reward_tx m address place h = refl

  owned-reward_tx :
      (m : Map TxOutput) (address : Bytes) (place : ℕ) (h : Bytes)
      → lookup (outpoint_key (reward_tx p address place h).id (pos 0)) m ≡ none
      → owned address (apply_txs m (reward_tx p address place h ∷ []))
        ≡ owned address m +ℤ pos (get_block_reward (pos place))
  owned-reward_tx m address place h fresh =
      let k = outpoint_key (reward_tx p address place h).id (pos 0) in
      ap (owned address) (apply_txs-reward_tx m address place h)
      ∙ owned-insert address k (reward_output address place) m fresh
      ∙ ap (λ x. owned address m +ℤ x) (rw (bytes_equal_refl address) refl)

-- handleMine on a node whose chain is minted, whose indices are right and whose chain is shorter
-- than 2^62 blocks, if blocks can be mined, the ID of the new coinbase is not that of an unspent
-- output's transaction, and the map of unspent outputs is visited in some order: it returns, and
-- raises the balance of the wallet, as GetBalance computes it, by the reward of the new block.
pub handle_mine-get_balance :
    (p : Platform)
    → Minable p
    → (env : Env) (n : Node) → length n.chain.blocks < 2 ^ 62
    → IsSound p n
    → ((m : Map TxOutput) → Perm (env.visit m) m)
    → lookup (outpoint_key (mining_reward p env n).id (pos 0)) (utxo_index n.chain.blocks) ≡ none
    → (n' : Node) × (r : Response) × (handle_mine p env n ≡ returns (n', r))
      × (get_balance env.visit (get_raw_address p n.wallet) n'.chain.blocks
          ≡ add64
              (get_balance env.visit (get_raw_address p n.wallet) n.chain.blocks)
              (pos (get_block_reward (pos (length n.chain.blocks)))))
unfolding add64
handle_mine-get_balance p minable env n short sound any_order fresh =
    let (tip, b, l, m, _, e, _) = handle_mine-IsMinted p minable env n short sound in
    (pushed p env b n, _, e, raised tip b l m)
  where
    address : Bytes
    address = get_raw_address p n.wallet

    raised :
        (tip b : Block)
        → last? n.chain.blocks ≡ some tip
        → IsMinted p address tip (length n.chain.blocks) b
        → get_balance env.visit address (pushed p env b n).chain.blocks
          ≡ add64
              (get_balance env.visit address n.chain.blocks)
              (pos (get_block_reward (pos (length n.chain.blocks))))
    raised tip b l m =
        let before = utxo_index n.chain.blocks in
        let r = get_block_reward (pos (length n.chain.blocks)) in
        let tx = reward_tx p address (length n.chain.blocks) tip.hash in
        let still_fresh : lookup (outpoint_key tx.id (pos 0)) before ≡ none =
          ap (λ (t : Transaction). lookup (outpoint_key t.id (pos 0)) before)
            (sym (mining_reward-eq p minable env n tip l))
          ∙ fresh in
        get_balance-eq env.visit address (pushed p env b n).chain.blocks (any_order _)
        ∙ ap (λ bs. wrap64 (owned address (utxo_index bs))) (blocks-pushed p minable env n b)
        ∙ ap (λ u. wrap64 (owned address u)) (utxo_index-append n.chain.blocks b)
        ∙ ap (λ txs. wrap64 (owned address (apply_txs before txs))) m.pays
        ∙ ap wrap64 (owned-reward_tx p before address (length n.chain.blocks) tip.hash still_fresh)
        ∙ sym (wrap64-add (owned address before) (pos r))
        ∙ ap (λ x. wrap64 (x +ℤ pos r))
            (sym (get_balance-eq env.visit address n.chain.blocks (any_order _)))
