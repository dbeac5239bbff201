-- ===== src/Start/Process.antt =====
-- A chain that one process has mined, in a process that encodes transactions in another way.
use earthion_blockchain_dev.Base.{
  ℕ, suc, ◌≤◌, List, [], ◌∷◌, map, some, true, false, Bytes, length, ◌≡◌, ◌≢◌, inl, inr, sym, subst,
  ◌∙◌, ap, arith, All, Elem, Bool-cases,
}
use earthion_blockchain_dev.Base.Format.{IsByte}
use earthion_blockchain_dev.Base.Map.{lookup}
use earthion_blockchain_dev.Base.Outcome.{returns}
use earthion_blockchain_dev.Crypto.Hash.{length-double_hash}
use earthion_blockchain_dev.Core.Types.{Block}
use earthion_blockchain_dev.Core.Platform.{Platform}
use earthion_blockchain_dev.Core.Pow.{pow_hash, prepare_data, validate_pow}
use earthion_blockchain_dev.Core.Pow.Mine.{hash-proved}
use earthion_blockchain_dev.Core.Validate.{validate}
use earthion_blockchain_dev.Core.Validate.Sound.{AllGood, validate_sound}
use earthion_blockchain_dev.Core.Validate.Total.{HasHashes, validate_total}
use earthion_blockchain_dev.Storage.{Json, block_to_json}
use earthion_blockchain_dev.Wallet.{get_raw_address}
use earthion_blockchain_dev.Wallet.Files.{WalletGob}
use earthion_blockchain_dev.Server.Node.{Node}
use earthion_blockchain_dev.Server.Answers.{IsSound}
use earthion_blockchain_dev.Server.Minted.{AllMinted, IsMintedChain, validate-IsMintedChain}
use earthion_blockchain_dev.Start.{Boot, wallet_file, initialize, shutdown}
use earthion_blockchain_dev.Start.Restart.{initialize-shutdown}

module _ (p : Platform) where
  length-proved : (b : Block) → validate_pow p b ≡ true → length b.hash ≡ 32
  unfolding pow_hash
  length-proved b h =
      ap length (hash-proved p b h) ∙ length-double_hash p.digest (prepare_data p b b.nonce)

  AllMinted-HasHashes :
      (address : Bytes) (prev : Block) (place : ℕ) (bs : List Block)
      → length prev.hash ≡ 32
      → AllMinted p address prev place bs
      → All HasHashes bs
  AllMinted-HasHashes address prev place [] before h = tt
  AllMinted-HasHashes address prev place (b ∷ bs) before h =
      let long = length-proved b h.0.proved in
      let linked = ap length h.0.links in
      (
        (omega (arith, linked, before), omega (arith, long)),
        AllMinted-HasHashes address b (suc place) bs long h.1,
      )

  AllMinted-proved :
      (address : Bytes) (prev : Block) (place : ℕ) (bs : List Block) (b : Block)
      → AllMinted p address prev place bs
      → Elem b bs
      → validate_pow p b ≡ true
  AllMinted-proved address prev place [] b h e = elim e [ ]
  AllMinted-proved address prev place (x ∷ bs) b h (inl e) =
      subst (λ y. validate_pow p y ≡ true) (sym e) h.0.proved
  AllMinted-proved address prev place (x ∷ bs) b h (inr e) =
      AllMinted-proved address x (suc place) bs b h.1 e

  AllGood-proved :
      (prev : Block) (bs : List Block) (b : Block)
      → AllGood p prev bs
      → Elem b bs
      → validate_pow p b ≡ true
  AllGood-proved prev [] b h e = elim e [ ]
  AllGood-proved prev (x ∷ bs) b h (inl e) = subst (λ y. validate_pow p y ≡ true) (sym e) h.0.proved
  AllGood-proved prev (x ∷ bs) b h (inr e) = AllGood-proved x bs b h.1 e

  -- Validate rejects a chain whose hashes are long, if a later block does not hash to its own hash.
  validate_rejects :
      (genesis : Block) (bs : List Block) (b : Block)
      → 8 ≤ length genesis.hash
      → All HasHashes bs
      → Elem b bs
      → pow_hash p b b.nonce ≢ b.hash
      → validate p (genesis ∷ bs) ≡ returns false
  unfolding pow_hash
  validate_rejects genesis bs b long hashes e other =
      let (valid, answer) = validate_total p genesis bs long hashes in
      elim (Bool-cases valid) [
        | inr f ↦ answer ∙ ap returns f
        | inl t ↦
            let (_, good, _) = validate_sound p genesis bs (answer ∙ ap returns t) in
            absurd (other (sym (hash-proved p b (AllGood-proved genesis bs b good e))))
      ]

-- A chain that Validate accepts is rejected after a restart: a node whose chain is minted and
-- whose indices are right is stopped by a shutdown that can create the chain's file, and started
-- again by a process that computes another proof-of-work hash for some block of the chain that has
-- transactions. Validate accepts the chain in the first process; in the second one
-- the start brings back all its blocks, and Validate rejects them; if SHA-256 gives bytes, the
-- wallet's file holds the node's wallet with a key of 32 bytes, and encoding/json decodes what it
-- encoded of the blocks.
pub initialize_rejects :
    (p p' : Platform) (g : WalletGob) (j : Json) (boot : Boot) (n : Node) (file : Bytes) (b : Block)
    → IsSound p n
    → Elem b n.chain.blocks
    → b.transactions ≢ []
    → pow_hash p' b b.nonce ≢ pow_hash p b b.nonce
    → ((d : Bytes) → All IsByte (p.digest.sha256 d))
    → lookup wallet_file n.disk ≡ some file
    → g.decode file ≡ some n.wallet
    → length n.wallet.private_key_bytes ≡ 32
    → j.decode (j.encode (map block_to_json n.chain.blocks))
      ≡ some (map block_to_json n.chain.blocks)
    → (validate p n.chain.blocks ≡ returns true)
      × ((n' : Node) × (initialize p' g j boot (shutdown j true n) ≡ returns (some n'))
          × (n'.chain.blocks ≡ n.chain.blocks)
          × (validate p' n'.chain.blocks ≡ returns false))
unfolding pow_hash
initialize_rejects p p' g j boot n file b sound e pays other bytes here decodes long json =
    let address = get_raw_address p n.wallet in
    let c = sound.minted in
    let (n', back, blocks, _, _, _) =
      initialize-shutdown g j p p' boot n file sound bytes here decodes long json in
    let first = length-proved p c.genesis c.first_proved in
    let mined = later c (subst (Elem b) c.whole e) in
    let own = hash-proved p b (AllMinted-proved p address c.genesis 1 c.rest b c.minted mined) in
    (
      validate-IsMintedChain p address n.chain.blocks c,
      (
        n',
        back,
        blocks,
        ap (validate p') (blocks ∙ c.whole)
            ∙ validate_rejects p' c.genesis c.rest b (omega (arith, first))
                (AllMinted-HasHashes p address c.genesis 1 c.rest first c.minted) mined
                (λ same. other (same ∙ own)),
      ),
    )
  where
    later :
        (c : IsMintedChain p (get_raw_address p n.wallet) n.chain.blocks)
        → Elem b (c.genesis ∷ c.rest)
        → Elem b c.rest
    later c (inl same) = absurd (pays (ap (λ (x : Block). x.transactions) same ∙ c.pays_none))
    later c (inr mined) = mined
