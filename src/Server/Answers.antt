-- ===== src/Server/Answers.antt =====
-- The handlers on a node whose chain is minted and whose indices are right: each of them answers,
-- and only handleMine changes the chain.
use earthion_blockchain_dev.Base.{
  ℕ, ◌-◌, ◌^◌, ◌<◌, List, [], ◌∷◌, ◌++◌, some, true, bytes_equal_refl, length, last?, last?-append,
  ◌≡◌, refl, sym, ◌∙◌, ap, subst, if◌then◌else◌,
}
use earthion_blockchain_dev.Base.Outcome.{returns}
use earthion_blockchain_dev.Core.Types.{Transaction, Block}
use earthion_blockchain_dev.Core.Platform.{Platform}
use earthion_blockchain_dev.Core.Pow.{validate_pow}
use earthion_blockchain_dev.Core.Pow.Mine.{Wins}
use earthion_blockchain_dev.Core.Block.{candidate, new_block, block_merkle_root}
use earthion_blockchain_dev.Core.Block.Mined.{validate_pow-new_block}
use earthion_blockchain_dev.Core.Transaction.{is_empty}
use earthion_blockchain_dev.Core.Chain.{
  Disk, Blockchain, update_index, next_block, add_block, save_to_file, last_block,
}
use earthion_blockchain_dev.Core.Chain.Index.{IsIndexed}
use earthion_blockchain_dev.Core.Chain.Extend.{
  push_block, push_block-IsIndexed, IsNumbered, extend-IsIndexed, index-next_block-eq,
}
use earthion_blockchain_dev.Core.Validate.{merkle_root_matches}
use earthion_blockchain_dev.Wallet.{get_raw_address}
use earthion_blockchain_dev.Server.Json.{block_to_json}
use earthion_blockchain_dev.Server.Node.{Node, Env, success, block_body, status_created}
use earthion_blockchain_dev.Server.Handlers.{append_block, mining_reward, answer_mined, handle_mine}
use earthion_blockchain_dev.Server.Minted.{
  reward_tx, IsMinted, IsMintedChain, IsMintedChain-append, index-tip, has_tip,
}

-- Some nonce that Run tries gives a block a hash below its target.
abbrev pub Minable : Platform → Type 0
Minable p = (b : Block) → (n : ℕ) × (n < 2 ^ 63 - 1) × Wins p b n

-- The chain is minted for the node's wallet, and its indices are right.
pub record IsSound (p : Platform) (n : Node) : Type 0 where
  pub minted : IsMintedChain p (get_raw_address p n.wallet) n.chain.blocks
  pub indexed : IsIndexed n.chain

module _ (p : Platform) (env : Env) where
  -- The files after a chain is saved.
  abbrev pub saved : Blockchain → Disk → Disk
  saved bc disk =
      if is_empty bc.filename then disk else save_to_file p env.can_create bc.filename bc disk

  -- The node with a block put on top of its chain.
  abbrev pub pushed : Block → Node → Node
  pushed b n = record n { chain = push_block b n.chain; disk = saved (push_block b n.chain) n.disk }

  append_block-eq :
      (txs : List Transaction) (n : Node) (tip : Block)
      → last? n.chain.blocks ≡ some tip
      → length n.chain.blocks < 2 ^ 62
      → IsNumbered n.chain
      → IsIndexed n.chain
      → append_block p env txs n ≡ returns (pushed (next_block p env.now txs tip n.chain.blocks) n)
  unfolding append_block add_block
  append_block-eq txs n tip l short numbered indexed =
      rw
        (
          (extend-IsIndexed p env.now txs n.chain tip l short numbered indexed).0,
          append_block,
          add_block,
        )
        refl

module _ (p : Platform) (minable : Minable p) (env : Env) where
  validate_pow-next_block :
      (txs : List Transaction) (tip : Block) (blocks : List Block)
      → validate_pow p (next_block p env.now txs tip blocks) ≡ true
  unfolding next_block
  validate_pow-next_block txs tip blocks =
      let (n, lt, w) = minable (candidate p env.now txs tip.hash _ blocks) in
      validate_pow-new_block p env.now txs tip.hash _ blocks n lt w

  merkle-next_block :
      (tx : Transaction) (tip : Block) (blocks : List Block)
      → merkle_root_matches p (next_block p env.now (tx ∷ []) tip blocks) ≡ true
  unfolding next_block merkle_root_matches new_block block_merkle_root
  merkle-next_block tx tip blocks = bytes_equal_refl _

  -- The block that handleMine makes.
  abbrev pub mined_block : Node → Block → Block
  mined_block n tip =
      next_block p env.now
        (reward_tx p (get_raw_address p n.wallet) (length n.chain.blocks) tip.hash ∷ []) tip
        n.chain.blocks

  pub mined_block-IsMinted :
      (n : Node) (tip : Block)
      → last? n.chain.blocks ≡ some tip
      → length n.chain.blocks < 2 ^ 62
      → IsSound p n
      → IsMinted p (get_raw_address p n.wallet) tip (length n.chain.blocks) (mined_block n tip)
  mined_block-IsMinted n tip l short sound =
      let txs = reward_tx p (get_raw_address p n.wallet) (length n.chain.blocks) tip.hash ∷ [] in
      let numbered = index-tip p (get_raw_address p n.wallet) n.chain.blocks sound.minted in
      let (_, links, pays, _, _) =
        extend-IsIndexed p env.now txs n.chain tip l short numbered sound.indexed in
      record {
        links = links;
        at_place = index-next_block-eq p env.now txs n.chain tip l short numbered;
        pays = pays;
        proved = validate_pow-next_block txs tip n.chain.blocks;
        merkle =
            merkle-next_block
              (reward_tx p (get_raw_address p n.wallet) (length n.chain.blocks) tip.hash) tip
              n.chain.blocks;
      }

  pub mining_reward-eq :
      (n : Node) (tip : Block)
      → last? n.chain.blocks ≡ some tip
      → mining_reward p env n
        ≡ reward_tx p (get_raw_address p n.wallet) (length n.chain.blocks) tip.hash
  unfolding mining_reward
  mining_reward-eq n tip l = rw (l, mining_reward) refl

  pub blocks-pushed :
      (n : Node) (b : Block) → (pushed p env b n).chain.blocks ≡ n.chain.blocks ++ b ∷ []
  unfolding update_index
  blocks-pushed n b = refl

  answer_mined-eq :
      (n : Node) (b : Block)
      → last? n.chain.blocks ≡ some b
      → answer_mined p env n ≡ returns (n, success status_created (block_body (block_to_json b)))
  unfolding last_block
  answer_mined-eq n b l = rw (l, answer_mined) refl

  append_reward-eq :
      (n : Node) (tip : Block)
      → last? n.chain.blocks ≡ some tip
      → length n.chain.blocks < 2 ^ 62
      → IsSound p n
      → append_block p env (mining_reward p env n ∷ []) n
        ≡ returns (pushed p env (mined_block n tip) n)
  append_reward-eq n tip l short sound =
      let address = get_raw_address p n.wallet in
      ap (λ tx. append_block p env (tx ∷ []) n) (mining_reward-eq n tip l)
      ∙ append_block-eq p env (reward_tx p address (length n.chain.blocks) tip.hash ∷ []) n tip l
          short (index-tip p address n.chain.blocks sound.minted) sound.indexed

  handle_mine-eq :
      (n : Node) (b : Block)
      → append_block p env (mining_reward p env n ∷ []) n ≡ returns (pushed p env b n)
      → handle_mine p env n
        ≡ returns (pushed p env b n, success status_created (block_body (block_to_json b)))
  unfolding handle_mine
  handle_mine-eq n b e =
      rw (e, handle_mine)
        (answer_mined-eq (pushed p env b n) b
          (ap last? (blocks-pushed n b) ∙ last?-append n.chain.blocks b))

  pub IsSound-pushed :
      (n : Node) (tip b : Block)
      → last? n.chain.blocks ≡ some tip
      → IsSound p n
      → IsMinted p (get_raw_address p n.wallet) tip (length n.chain.blocks) b
      → IsSound p (pushed p env b n)
  IsSound-pushed n tip b l sound m = record {
    minted =
        subst (IsMintedChain p (get_raw_address p n.wallet)) (sym (blocks-pushed n b)) (
          IsMintedChain-append p (get_raw_address p n.wallet) n.chain.blocks tip b sound.minted l
            m);
    indexed = push_block-IsIndexed b n.chain m.at_place sound.indexed;
  }

  -- handleMine on a node whose chain is minted, whose indices are right and whose chain is shorter
  -- than 2^62 blocks, if blocks can be mined: it does not panic; it puts one block on top of the
  -- chain, which links to the old tip, carries its own position, passes its proof of work and holds
  -- one transaction, the coinbase that pays the reward of that position to the wallet; it answers
  -- 201 with that block; and the new chain is minted and its indices are right again.
  pub handle_mine-IsMinted :
      (n : Node)
      → length n.chain.blocks < 2 ^ 62
      → IsSound p n
      → (tip : Block) × (b : Block) × (last? n.chain.blocks ≡ some tip)
        × IsMinted p (get_raw_address p n.wallet) tip (length n.chain.blocks) b
        × (append_block p env (mining_reward p env n ∷ []) n ≡ returns (pushed p env b n))
        × (handle_mine p env n
            ≡ returns (pushed p env b n, success status_created (block_body (block_to_json b))))
        × IsSound p (pushed p env b n)
  handle_mine-IsMinted n short sound =
      let (tip, l) = has_tip p (get_raw_address p n.wallet) n.chain.blocks sound.minted in
      let m = mined_block-IsMinted n tip l short sound in
      let e = append_reward-eq n tip l short sound in
      (
        tip,
        mined_block n tip,
        l,
        m,
        e,
        handle_mine-eq n (mined_block n tip) e,
        IsSound-pushed n tip (mined_block n tip) l sound m,
      )
