-- ===== src/Start/Loss.antt =====
-- Starts that do not bring a chain back.
use earthion_blockchain_dev.Base.{
  ◌^◌, ◌<◌, List, [], ◌∷◌, ◌++◌, none, some, true, false, Bytes, length, ◌≡◌, refl, ap,
}
use earthion_blockchain_dev.Base.Map.{lookup}
use earthion_blockchain_dev.Base.Outcome.{returns, panics}
use earthion_blockchain_dev.Core.Types.{Block}
use earthion_blockchain_dev.Core.Platform.{Platform}
use earthion_blockchain_dev.Core.Chain.{
  Blockchain, Disk, new_blockchain, set_filename, rebuild_index, update_index, save_to_file,
  add_block, extend,
}
use earthion_blockchain_dev.Storage.{Json, load_blockchain, blocks_from_json}
use earthion_blockchain_dev.Core.Validate.{validate}
use earthion_blockchain_dev.Wallet.{Wallet}
use earthion_blockchain_dev.Wallet.Files.{WalletGob}
use earthion_blockchain_dev.Server.Node.{Node, Env, Response, success, status_created, block_body}
use earthion_blockchain_dev.Server.Handlers.{append_block, handle_mine}
use earthion_blockchain_dev.Server.Json
use earthion_blockchain_dev.Server.Answers.{Minable, IsSound, handle_mine-IsMinted, pushed}
use earthion_blockchain_dev.Start.{Boot, chain_file, load_or_create_blockchain}
use earthion_blockchain_dev.Start.Restart.{lookup-insert_same, no_chain, some_chain}

module _ (p : Platform) (g : WalletGob) (j : Json) (boot : Boot) where
  saved_chain :
      (env : Env) (b : Block) (n : Node)
      → n.chain.filename ≡ chain_file
      → env.can_create ≡ true
      → lookup chain_file (pushed p env b n).disk
        ≡ some (p.encode_chain (pushed p env b n).chain.blocks)
  unfolding save_to_file update_index
  saved_chain env b n name creates =
      rw (name, creates)
        (lookup-insert_same chain_file (p.encode_chain (n.chain.blocks ++ b ∷ [])) n.disk)

  undecoded :
      (disk : Disk) (file : Bytes)
      → lookup chain_file disk ≡ some file
      → j.decode file ≡ none
      → load_blockchain j p boot.load_now chain_file disk ≡ none
  unfolding load_blockchain
  undecoded disk file here fails = rw (here, fails, load_blockchain) refl

  -- handleMine saves the chain with encoding/gob, to the file that a start reads as JSON: on a
  -- node of a minted chain shorter than 2^62 blocks that saves to that file, if blocks can be
  -- mined, the file can be created and no gob of a chain decodes as JSON, a start from what
  -- handleMine leaves on the disk begins a new chain, and all blocks are lost.
  pub handle_mine_loses :
      Minable p
      → (env : Env) (n : Node) → length n.chain.blocks < 2 ^ 62
      → IsSound p n
      → n.chain.filename ≡ chain_file
      → env.can_create ≡ true
      → ((bs : List Block) → j.decode (p.encode_chain bs) ≡ none)
      → (n' : Node) × (r : Response) × (handle_mine p env n ≡ returns (n', r))
        × (load_or_create_blockchain p g j boot n'.disk
            ≡ set_filename chain_file (new_blockchain p boot.new_now))
  handle_mine_loses minable env n short sound name creates no_json =
      let (tip, b, l, m, _, e, _) = handle_mine-IsMinted p minable env n short sound in
      let n' = pushed p env b n in
      (
        n',
        success status_created (block_body (Json.block_to_json b)),
        e,
        no_chain p g j boot n'.disk (
            undecoded n'.disk (p.encode_chain n'.chain.blocks) (saved_chain env b n name creates)
              (no_json n'.chain.blocks)),
      )

  empty_chain :
      (disk : Disk) (file : Bytes)
      → lookup chain_file disk ≡ some file
      → j.decode file ≡ some []
      → (load_or_create_blockchain p g j boot disk).blocks ≡ []
  unfolding load_blockchain blocks_from_json set_filename rebuild_index
  empty_chain disk file here decodes =
      ap (λ (bc : Blockchain). bc.blocks)
        (some_chain p g j boot disk loaded (rw (here, decodes, load_blockchain) refl))
    where
      loaded : Blockchain
      loaded =
          rebuild_index
            (record (set_filename chain_file (new_blockchain p boot.load_now)) { blocks = [] })

  panics_without_blocks :
      (env : Env) (n : Node) → n.chain.blocks ≡ [] → handle_mine p env n ≡ panics
  unfolding handle_mine append_block add_block extend
  panics_without_blocks env n empty = rw (empty, handle_mine, append_block, add_block, extend) refl

  -- A start from a chain file that holds an empty JSON array takes it for a chain: Validate rejects
  -- that chain, and handleMine panics on it, whatever the wallet.
  pub handle_mine_panics :
      (env : Env) (w : Wallet) (disk : Disk) (file : Bytes)
      → lookup chain_file disk ≡ some file
      → j.decode file ≡ some []
      → let n : Node = record {
        chain = load_or_create_blockchain p g j boot disk;
        wallet = w;
        disk = disk;
      } in
        (validate p n.chain.blocks ≡ returns false) × (handle_mine p env n ≡ panics)
  unfolding validate
  handle_mine_panics env w disk file here decodes =
      let empty = empty_chain disk file here decodes in
      (rw empty refl, panics_without_blocks env _ empty)
