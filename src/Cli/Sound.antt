-- ===== src/Cli/Sound.antt =====
-- The commands on a node whose chain is minted and whose indices are right: each of them returns,
-- and `mine` does to the node what handleMine of the server does.
use earthion_blockchain_dev.Base.{
  ℕ, suc, ◌*◌, ◌^◌, ◌<◌, ◌≤◌, List, [], ◌∷◌, Bytes, length, take, ◌≡◌, refl, ◌∙◌, ap, arith,
}
use earthion_blockchain_dev.Base.Int.{pos}
use earthion_blockchain_dev.Base.Format.{hex_encode}
use earthion_blockchain_dev.Base.Outcome.{returns}
use earthion_blockchain_dev.Crypto.Hash.{hash, length-hash, length-double_hash}
use earthion_blockchain_dev.Crypto.Base58.Checksum.{length-take}
use earthion_blockchain_dev.Core.Types.{TxOutput, Transaction, Block}
use earthion_blockchain_dev.Core.Platform.{Platform}
use earthion_blockchain_dev.Core.Transaction.{coinbase_tx, set_unique_id}
use earthion_blockchain_dev.Core.Reward.{get_block_reward}
use earthion_blockchain_dev.Wallet.{Wallet, get_raw_address}
use earthion_blockchain_dev.Server.Node.{Node, Env, Response}
use earthion_blockchain_dev.Server.Handlers.{mining_reward, handle_mine}
use earthion_blockchain_dev.Server.Minted.{reward_tx, AllMinted, IsMintedChain}
use earthion_blockchain_dev.Server.Answers.{
  Minable, IsSound, pushed, handle_mine-IsMinted, mining_reward-eq,
}
use earthion_blockchain_dev.Server.Grown.{IsGrown, IsGrown-pushed}
use earthion_blockchain_dev.Cli.{
  Output, mined, prefix, first_output, TxLine, tx_line, tx_lines, chain_lines, report_mined,
  mine_block,
}

length-hex_encode : (b : Bytes) → length (hex_encode b) ≡ 2 * length b
unfolding hex_encode
length-hex_encode [] = refl
length-hex_encode (x ∷ b) = omega (arith, length-hex_encode b)

prefix-returns : (n : ℕ) (b : Bytes) → n ≤ length b → prefix n b ≡ returns (take n b)
unfolding prefix
prefix-returns n b long = ground arith

module _ (p : Platform) where
  length-get_raw_address : (w : Wallet) → length (get_raw_address p w) ≡ 20
  unfolding get_raw_address
  length-get_raw_address w =
      length-take 20 (hash p.digest w.public_key) (omega (arith, length-hash p.digest w.public_key))

  tx_line-eq :
      (tx : Transaction) (o : TxOutput)
      → tx.outputs ≡ o ∷ []
      → 8 ≤ length o.pub_key
      → length tx.id ≡ 32
      → (l : TxLine) × (tx_line tx ≡ returns l)
  unfolding tx_line first_output
  tx_line-eq tx o one long id_long = (
    record {
      tx_id = take 16 (hex_encode tx.id);
      val = o.value;
      pubk = hex_encode (take 8 o.pub_key);
    },
    rw
        (
          one,
          prefix-returns 8 o.pub_key long,
          prefix-returns 16 (hex_encode tx.id) (omega (arith, length-hex_encode tx.id, id_long)),
          tx_line,
        )
        refl,
  )

  length-reward_tx :
      (address : Bytes) (place : ℕ) (h : Bytes) → length (reward_tx p address place h).id ≡ 32
  unfolding coinbase_tx set_unique_id
  length-reward_tx address place h = length-double_hash p.digest _

  outputs-reward_tx :
      (address : Bytes) (place : ℕ) (h : Bytes)
      → (reward_tx p address place h).outputs
        ≡ record { value = pos (get_block_reward (pos place)); pub_key = address } ∷ []
  unfolding coinbase_tx set_unique_id
  outputs-reward_tx address place h = refl

  tx_lines-reward_tx :
      (w : Wallet) (place : ℕ) (h : Bytes)
      → (ls : List TxLine) × (tx_lines (reward_tx p (get_raw_address p w) place h ∷ [])
          ≡ returns ls)
  unfolding tx_lines
  tx_lines-reward_tx w place h =
      let address = get_raw_address p w in
      let (l, e) =
        tx_line-eq (reward_tx p address place h) _ (outputs-reward_tx address place h)
          (omega (arith, length-get_raw_address w)) (length-reward_tx address place h) in
      (l ∷ [], rw (tx_lines, e) refl)

  chain_lines-cons :
      (b : Block) (bs : List Block)
      → ((ls : List TxLine) × (tx_lines b.transactions ≡ returns ls))
      → ((lss : List (List TxLine)) × (chain_lines bs ≡ returns lss))
      → (lss : List (List TxLine)) × (chain_lines (b ∷ bs) ≡ returns lss)
  unfolding chain_lines
  chain_lines-cons b bs (ls, e) (lss, f) = (ls ∷ lss, rw (chain_lines, e, f) refl)

  chain_lines-AllMinted :
      (w : Wallet) (prev : Block) (place : ℕ) (bs : List Block)
      → AllMinted p (get_raw_address p w) prev place bs
      → (lss : List (List TxLine)) × (chain_lines bs ≡ returns lss)
  unfolding chain_lines
  chain_lines-AllMinted w prev place [] h = ([], refl)
  chain_lines-AllMinted w prev place (b ∷ bs) h =
      let (ls, e) = tx_lines-reward_tx w place prev.hash in
      chain_lines-cons b bs (ls, ap tx_lines h.0.pays ∙ e)
        (chain_lines-AllMinted w b (suc place) bs h.1)

  chain_lines-IsMintedChain :
      (w : Wallet) (blocks : List Block)
      → IsMintedChain p (get_raw_address p w) blocks
      → (lss : List (List TxLine)) × (chain_lines blocks ≡ returns lss)
  chain_lines-IsMintedChain w blocks c =
      let (lss, e) =
        chain_lines-cons c.genesis c.rest ([], ap tx_lines c.pays_none ∙ no_lines)
          (chain_lines-AllMinted w c.genesis 1 c.rest c.minted) in
      (lss, ap chain_lines c.whole ∙ e)
    where
      no_lines : tx_lines [] ≡ returns []
      no_lines = unfold tx_lines in refl

  -- `mine` of the command line and handleMine of the server do the same to a node whose chain is
  -- minted, whose indices are right and whose chain is shorter than 2^62 blocks, if blocks can be
  -- mined: both return, with the same node after them, whose chain has at most one
  -- block more; no slice of `mine` is out of range.
  pub mine_block-handle_mine :
      Minable p
      → (env : Env) (n : Node) → length n.chain.blocks < 2 ^ 62
      → IsSound p n
      → (n' : Node) × (r : Response) × (out : Output) × (handle_mine p env n ≡ returns (n', r))
        × (mine_block p env n ≡ returns (n', out))
        × IsGrown p 1 n n'
  unfolding mine_block report_mined
  mine_block-handle_mine minable env n short sound =
      let (tip, b, l, m, appended, e, sound') = handle_mine-IsMinted p minable env n short sound in
      let n' = pushed p env b n in
      let (lss, printed) = chain_lines-IsMintedChain n.wallet n'.chain.blocks sound'.minted in
      let id_long : length (mining_reward p env n).id ≡ 32 =
        ap (λ (tx : Transaction). length tx.id) (mining_reward-eq p minable env n tip l)
        ∙ length-reward_tx (get_raw_address p n.wallet) (length n.chain.blocks) tip.hash in
      (
        n',
        _,
        mined (mining_reward p env n).id lss,
        e,
        rw
            (
              prefix-returns 8 (mining_reward p env n).id (omega (arith, id_long)),
              appended,
              printed,
              mine_block,
              report_mined,
            )
            refl,
        IsGrown-pushed p minable env n b sound',
      )
