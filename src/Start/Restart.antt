-- ===== src/Start/Restart.antt =====
-- The first start, and what is left of a node after it has been stopped and started again. The next
-- start is another process, with a platform of its own.
use earthion_blockchain_dev.Base.{
  List, map, none, some, true, Bytes, bytes_equal, bytes_equal_refl, length, All, ◌≡◌, refl, ◌∙◌,
  ap,
}
use earthion_blockchain_dev.Base.Format.{IsByte}
use earthion_blockchain_dev.Base.Map.{lookup, insert, lookup-insert}
use earthion_blockchain_dev.Base.Outcome.{returns}
use earthion_blockchain_dev.Core.Types.{Block}
use earthion_blockchain_dev.Core.Platform.{Platform}
use earthion_blockchain_dev.Core.Chain.{
  Blockchain, Disk, new_blockchain, set_filename, rebuild_index,
}
use earthion_blockchain_dev.Core.Chain.Index.{IsIndexed, rebuild_index-IsIndexed}
use earthion_blockchain_dev.Storage.{Json, block_to_json, save_blockchain, load_blockchain}
use earthion_blockchain_dev.Storage.RoundTrip.{IsStorable, load_blockchain-save_blockchain}
use earthion_blockchain_dev.Wallet.{Wallet}
use earthion_blockchain_dev.Wallet.Files.{WalletGob, new_wallet, save, load_wallet, check_key}
use earthion_blockchain_dev.Server.Node.{Node}
use earthion_blockchain_dev.Server.Answers.{IsSound}
use earthion_blockchain_dev.Server.Storable.{IsMintedChain-IsStorable}
use earthion_blockchain_dev.Server.Reachable.{fresh_node, Reachable, IsIndexed-set_filename}
use earthion_blockchain_dev.Start.{
  Boot, wallet_file, chain_file, load_or_create_wallet, load_or_create_blockchain, initialize,
  shutdown,
}

pub lookup-insert_same :
    (name file : Bytes) (disk : Disk) → lookup name (insert name file disk) ≡ some file
lookup-insert_same name file disk =
    rw (lookup-insert name name file disk, bytes_equal_refl name) refl

-- A file does not hold the other's name.
lookup-insert_chain :
    (file : Bytes) (disk : Disk)
    → lookup wallet_file (insert chain_file file disk) ≡ lookup wallet_file disk
unfolding lookup bytes_equal
lookup-insert_chain file disk = lookup-insert chain_file wallet_file file disk

lookup-insert_wallet :
    (file : Bytes) (disk : Disk)
    → lookup chain_file (insert wallet_file file disk) ≡ lookup chain_file disk
unfolding lookup bytes_equal
lookup-insert_wallet file disk = lookup-insert wallet_file chain_file file disk

module _ (p : Platform) (g : WalletGob) (j : Json) (boot : Boot) where
  initialize-eq :
      (disk disk' : Disk) (w : Wallet)
      → load_or_create_wallet p g j boot disk ≡ returns (some (w, disk'))
      → initialize p g j boot disk
        ≡ returns (
            some (record {
              chain = load_or_create_blockchain p g j boot disk';
              wallet = w;
              disk = disk';
            }))
  unfolding initialize
  initialize-eq disk disk' w e = rw (e, initialize) refl

  pub no_chain :
      (disk : Disk)
      → load_blockchain j p boot.load_now chain_file disk ≡ none
      → load_or_create_blockchain p g j boot disk
        ≡ set_filename chain_file (new_blockchain p boot.new_now)
  unfolding load_or_create_blockchain
  no_chain disk e = rw (e, load_or_create_blockchain) refl

  pub some_chain :
      (disk : Disk) (bc : Blockchain)
      → load_blockchain j p boot.load_now chain_file disk ≡ some bc
      → load_or_create_blockchain p g j boot disk ≡ set_filename chain_file bc
  unfolding load_or_create_blockchain
  some_chain disk bc e = rw (e, load_or_create_blockchain) refl

  old_wallet :
      (disk : Disk) (file : Bytes) (w : Wallet)
      → lookup wallet_file disk ≡ some file
      → g.decode file ≡ some w
      → length w.private_key_bytes ≡ 32
      → load_or_create_wallet p g j boot disk ≡ returns (some (w, disk))
  unfolding load_or_create_wallet load_wallet check_key
  old_wallet disk file w here decodes long =
      rw (here, decodes, long, load_or_create_wallet, load_wallet) refl

  created_wallet :
      (disk : Disk) (key pub_key : Bytes)
      → lookup wallet_file disk ≡ none
      → boot.private_key ≡ some key
      → (p.priv_key_from_bytes key).1 ≡ some pub_key
      → boot.can_create_wallet ≡ true
      → let w : Wallet = record { private_key_bytes = key; public_key = pub_key } in
        load_or_create_wallet p g j boot disk
        ≡ returns (some (w, insert wallet_file (g.encode w) disk))
  unfolding load_or_create_wallet load_wallet new_wallet save
  created_wallet disk key pub_key none_there keyed public creates =
      rw (none_there, keyed, public, creates, load_or_create_wallet, load_wallet, new_wallet, save)
        refl

  no_file :
      (disk : Disk)
      → lookup chain_file disk ≡ none
      → load_blockchain j p boot.load_now chain_file disk ≡ none
  unfolding load_blockchain
  no_file disk none_there = rw (none_there, load_blockchain) refl

  -- The first start, on a disk with neither file, if the random source gives a key and the wallet's
  -- file can be created: the wallet is the one of that key, and its file is all that is new on the
  -- disk; the chain is the one that NewBlockchain makes, of one block, and it saves to the chain's
  -- file; and the node is one where the requests of a server's life begin.
  pub initialize-Reachable :
      (disk : Disk) (key pub_key : Bytes)
      → lookup wallet_file disk ≡ none
      → lookup chain_file disk ≡ none
      → boot.private_key ≡ some key
      → (p.priv_key_from_bytes key).1 ≡ some pub_key
      → boot.can_create_wallet ≡ true
      → (n : Node) × (initialize p g j boot disk ≡ returns (some n))
        × (n.wallet ≡ record { private_key_bytes = key; public_key = pub_key })
        × (n.disk ≡ insert wallet_file (g.encode n.wallet) disk)
        × (n.chain.blocks ≡ (new_blockchain p boot.new_now).blocks)
        × (length n.chain.blocks ≡ 1)
        × (n.chain.filename ≡ chain_file)
        × Reachable p n
  unfolding fresh_node new_blockchain set_filename rebuild_index
  initialize-Reachable disk key pub_key no_wallet_file no_chain_file keyed public creates =
      let w : Wallet = record { private_key_bytes = key; public_key = pub_key } in
      let disk' : Disk = insert wallet_file (g.encode w) disk in
      (
        fresh_node p boot.new_now chain_file w disk',
        initialize-eq disk disk' w
              (created_wallet disk key pub_key no_wallet_file keyed public creates)
            ∙ ap (λ c. returns (some (record { chain = c; wallet = w; disk = disk' })))
                (no_chain disk'
                  (no_file disk' (lookup-insert_wallet (g.encode w) disk ∙ no_chain_file))),
        refl,
        refl,
        refl,
        refl,
        refl,
        Reachable.start boot.new_now chain_file w disk',
      )

-- The chain of some blocks, as LoadBlockchain makes it and the start names its file.
unindexed : Platform → Boot → List Block → Blockchain
unindexed p boot blocks = record (set_filename chain_file (new_blockchain p boot.load_now)) {
  blocks = blocks;
}

module _ (g : WalletGob) (j : Json) where
  -- A node of storable blocks, stopped and started again.
  pub initialize-storable :
      (p' : Platform) (boot : Boot) (n : Node) (file : Bytes)
      → All IsStorable n.chain.blocks
      → lookup wallet_file n.disk ≡ some file
      → g.decode file ≡ some n.wallet
      → length n.wallet.private_key_bytes ≡ 32
      → j.decode (j.encode (map block_to_json n.chain.blocks))
        ≡ some (map block_to_json n.chain.blocks)
      → (n' : Node) × (initialize p' g j boot (shutdown j true n) ≡ returns (some n'))
        × (n'.chain.blocks ≡ n.chain.blocks)
        × (n'.chain.filename ≡ chain_file)
        × (n'.wallet ≡ n.wallet)
        × IsIndexed n'.chain
  unfolding shutdown save_blockchain set_filename rebuild_index unindexed
  initialize-storable p' boot n file storable here decodes long json_decodes =
      let loaded : Blockchain = rebuild_index (unindexed p' boot n.chain.blocks) in
      let disk = shutdown j true n in
      (
        record { chain = set_filename chain_file loaded; wallet = n.wallet; disk = disk },
        initialize-eq p' g j boot disk disk n.wallet (
              old_wallet p' g j boot disk file n.wallet (lookup-insert_chain _ n.disk ∙ here)
                decodes long)
            ∙ ap (λ c. returns (some (record { chain = c; wallet = n.wallet; disk = disk })))
                (some_chain p' g j boot disk loaded (
                  load_blockchain-save_blockchain j p' boot.load_now n.chain chain_file n.disk
                    json_decodes storable)),
        refl,
        refl,
        refl,
        IsIndexed-set_filename chain_file loaded
            (rebuild_index-IsIndexed (unindexed p' boot n.chain.blocks)),
      )

  -- A node whose chain is minted and whose indices are right, stopped by a shutdown that can
  -- create the chain's file, and started again by another process, which may encode transactions
  -- in another way: it comes back with the same blocks, the chain's file, the same wallet, and
  -- right indices; if SHA-256 gives bytes, the wallet's file holds the node's wallet with a key of
  -- 32 bytes, and encoding/json decodes what it encoded of the blocks.
  pub initialize-shutdown :
      (p p' : Platform) (boot : Boot) (n : Node) (file : Bytes)
      → IsSound p n
      → ((d : Bytes) → All IsByte (p.digest.sha256 d))
      → lookup wallet_file n.disk ≡ some file
      → g.decode file ≡ some n.wallet
      → length n.wallet.private_key_bytes ≡ 32
      → j.decode (j.encode (map block_to_json n.chain.blocks))
        ≡ some (map block_to_json n.chain.blocks)
      → (n' : Node) × (initialize p' g j boot (shutdown j true n) ≡ returns (some n'))
        × (n'.chain.blocks ≡ n.chain.blocks)
        × (n'.chain.filename ≡ chain_file)
        × (n'.wallet ≡ n.wallet)
        × IsIndexed n'.chain
  initialize-shutdown p p' boot n file sound bytes =
      initialize-storable p' boot n file
        (IsMintedChain-IsStorable p bytes n.wallet n.chain.blocks sound.minted)
