-- ===== src/Server/Minted.antt =====
-- Chains as handleMine makes them, and what the rest of the program says of such a chain.
use earthion_blockchain_dev.Base.{
  ℕ, suc, ◌+◌, ◌-◌, List, [], ◌∷◌, ◌++◌, some, Bool, true, Bytes, bytes_equal_iff, length, last?,
  ◌≡◌, refl, sym, subst, ◌∙◌, ap, arith,
}
use earthion_blockchain_dev.Base.Int.{pos}
use earthion_blockchain_dev.Base.Map.{Map}
use earthion_blockchain_dev.Base.Outcome.{returns}
use earthion_blockchain_dev.Crypto.Hash.{double_hash}
use earthion_blockchain_dev.Core.Types.{Transaction, Block}
use earthion_blockchain_dev.Core.Platform.{Platform}
use earthion_blockchain_dev.Core.Pow.{validate_pow}
use earthion_blockchain_dev.Core.Transaction.{is_coinbase, is_empty, coinbase_tx}
use earthion_blockchain_dev.Core.Reward.{get_block_reward}
use earthion_blockchain_dev.Core.Fork.Resolve.{IsLinked}
use earthion_blockchain_dev.Core.Validate.{
  go_on, merkle_root_matches, check_tx, check_txs, check_block, check_blocks, validate,
}

module _ (p : Platform) (address : Bytes) where
  -- The coinbase of the block at a position, on a block with the given hash.
  abbrev pub reward_tx : ℕ → Bytes → Transaction
  reward_tx place prev_hash =
      coinbase_tx p address (pos (get_block_reward (pos place))) (pos place) prev_hash

  -- The block at a position, on the block `prev`: it holds one transaction, the coinbase that pays
  -- the reward of its position.
  pub record IsMinted (prev : Block) (place : ℕ) (b : Block) : Type 0 where
    pub links : b.prev_hash ≡ prev.hash
    pub at_place : b.index ≡ pos place
    pub pays : b.transactions ≡ reward_tx place prev.hash ∷ []
    pub proved : validate_pow p b ≡ true
    pub merkle : merkle_root_matches p b ≡ true

  abbrev pub AllMinted : Block → ℕ → List Block → Type 0
  AllMinted prev place [] = Unit
  AllMinted prev place (b ∷ bs) = IsMinted prev place b × AllMinted b (suc place) bs

  -- A chain: a genesis block without transactions that passes its proof of work, and minted blocks
  -- on it.
  pub record IsMintedChain (blocks : List Block) : Type 0 where
    pub genesis : Block
    pub rest : List Block
    pub whole : blocks ≡ genesis ∷ rest
    pub first : genesis.prev_hash ≡ []
    pub zero_index : genesis.index ≡ pos 0
    pub pays_none : genesis.transactions ≡ []
    pub root_of_none : genesis.merkle_root ≡ double_hash p.digest []
    pub first_proved : validate_pow p genesis ≡ true
    pub minted : AllMinted genesis 1 rest

  is_coinbase-reward_tx : (place : ℕ) (h : Bytes) → is_coinbase (reward_tx place h) ≡ true
  unfolding is_coinbase coinbase_tx
  is_coinbase-reward_tx place h = refl

  check_block-IsMinted :
      (prev : Block) (place : ℕ) (b : Block) (spent : Map Bool)
      → IsMinted prev place b
      → check_block p prev b spent ≡ go_on spent
  unfolding check_block check_txs check_tx
  check_block-IsMinted prev place b spent m =
      rw
        (
          (bytes_equal_iff b.prev_hash prev.hash).1 m.links,
          m.proved,
          m.merkle,
          m.pays,
          is_coinbase-reward_tx place prev.hash,
        )
        refl

  check_blocks-AllMinted :
      (prev : Block) (place : ℕ) (bs : List Block) (spent : Map Bool)
      → AllMinted prev place bs
      → check_blocks p prev bs spent ≡ go_on spent
  unfolding check_blocks
  check_blocks-AllMinted prev place [] spent h = refl
  check_blocks-AllMinted prev place (b ∷ bs) spent h =
      rw (check_block-IsMinted prev place b spent h.0)
        (check_blocks-AllMinted b (suc place) bs spent h.1)

  pub validate-IsMintedChain :
      (blocks : List Block) → IsMintedChain blocks → validate p blocks ≡ returns true
  unfolding validate
  validate-IsMintedChain blocks c =
      let no_previous : is_empty c.genesis.prev_hash ≡ true = ap is_empty c.first in
      rw (c.whole, no_previous, check_blocks-AllMinted c.genesis 1 c.rest [] c.minted, validate)
        refl

  IsLinked-AllMinted :
      (prev : Block) (place : ℕ) (bs : List Block) → AllMinted prev place bs → IsLinked (prev ∷ bs)
  IsLinked-AllMinted prev place [] h = tt
  IsLinked-AllMinted prev place (b ∷ bs) h = (h.0.links, IsLinked-AllMinted b (suc place) bs h.1)

  pub IsLinked-IsMintedChain : (blocks : List Block) → IsMintedChain blocks → IsLinked blocks
  IsLinked-IsMintedChain blocks c = rw c.whole (IsLinked-AllMinted c.genesis 1 c.rest c.minted)

  tip_index :
      (prev : Block) (place : ℕ) (bs : List Block) (tip : Block)
      → prev.index ≡ pos place
      → AllMinted prev (suc place) bs
      → last? (prev ∷ bs) ≡ some tip
      → tip.index ≡ pos (place + length bs)
  tip_index prev place [] tip e h l =
      let same : prev ≡ tip = cc l in
      ap (λ (b : Block). b.index) (sym same) ∙ (e ∙ ap pos (omega arith))
  tip_index prev place (b ∷ bs) tip e h l =
      tip_index b (suc place) bs tip h.0.at_place h.1 l ∙ ap pos (omega arith)

  pub index-tip :
      (blocks : List Block)
      → IsMintedChain blocks
      → (tip : Block) → last? blocks ≡ some tip
      → tip.index ≡ pos (length blocks - 1)
  index-tip blocks c tip l =
      tip_index c.genesis 0 c.rest tip c.zero_index c.minted (rw c.whole at l)
      ∙ ap pos (rw c.whole (omega arith))

  AllMinted-append :
      (prev : Block) (place : ℕ) (bs : List Block) (tip b : Block)
      → AllMinted prev place bs
      → last? (prev ∷ bs) ≡ some tip
      → IsMinted tip (place + length bs) b
      → AllMinted prev place (bs ++ b ∷ [])
  AllMinted-append prev place [] tip b h l m =
      let same : tip ≡ prev = cc l in
      (subst (λ t. IsMinted t place b) same (subst (λ n. IsMinted tip n b) (omega arith) m), tt)
  AllMinted-append prev place (c ∷ bs) tip b h l m = (
    h.0,
    AllMinted-append c (suc place) bs tip b h.1 l (subst (λ n. IsMinted tip n b) (omega arith) m),
  )

  -- A minted chain with a minted block on top is minted.
  pub IsMintedChain-append :
      (blocks : List Block) (tip b : Block)
      → IsMintedChain blocks
      → last? blocks ≡ some tip
      → IsMinted tip (length blocks) b
      → IsMintedChain (blocks ++ b ∷ [])
  IsMintedChain-append blocks tip b c l m = record {
    genesis = c.genesis;
    rest = c.rest ++ b ∷ [];
    whole = rw c.whole refl;
    first = c.first;
    zero_index = c.zero_index;
    pays_none = c.pays_none;
    root_of_none = c.root_of_none;
    first_proved = c.first_proved;
    minted =
        AllMinted-append c.genesis 1 c.rest tip b c.minted (rw c.whole at l)
          (subst (λ n. IsMinted tip n b) (ap length c.whole ∙ omega arith) m);
  }

  last?-cons : (b : Block) (bs : List Block) → (tip : Block) × (last? (b ∷ bs) ≡ some tip)
  last?-cons b [] = (b, refl)
  last?-cons b (c ∷ bs) = last?-cons c bs

  pub has_tip :
      (blocks : List Block) → IsMintedChain blocks → (tip : Block) × (last? blocks ≡ some tip)
  has_tip blocks c = let (tip, e) = last?-cons c.genesis c.rest in (tip, ap last? c.whole ∙ e)
