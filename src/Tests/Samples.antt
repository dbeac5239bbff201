-- ===== src/Tests/Samples.antt =====
-- A chain of two blocks, and what stands in it, to run the definitions with.
use earthion_blockchain_dev.Base.{[], ◌∷◌, ◌++◌, replicate, ◌≡◌, refl}
use earthion_blockchain_dev.Base.Int.{pos, minus_one}
use earthion_blockchain_dev.Core.Types.{TxInput, Transaction, Block}
use earthion_blockchain_dev.Core.Platform.{toy_platform}
use earthion_blockchain_dev.Core.Block.{new_block}
use earthion_blockchain_dev.Core.Chain.{Blockchain}
use earthion_blockchain_dev.Wallet.{Wallet}
use earthion_blockchain_dev.Crypto.Merkle.{root_hash, new_merkle_tree}
use earthion_blockchain_dev.Core.Pow.{
  run_pow, bound_difficulty, meets_target, pow_hash, current_difficulty,
}
use earthion_blockchain_dev.Crypto.Hash.{double_hash}
use earthion_blockchain_dev.Core.Utils.{int_to_hex}

-- A coinbase that pays 50 to the address 9.
abbrev pub coinbase : Transaction
coinbase = record {
  id = 1 ∷ [];
  inputs = record { txid = []; out_index = minus_one; signature = []; pub_key = 9 ∷ [] } ∷ [];
  outputs = record { value = pos 50; pub_key = 9 ∷ [] } ∷ [];
}

-- It pays 20 to the address 8 and 30 to the owner of the wallet.
abbrev pub payment_input : TxInput
payment_input = record { txid = 1 ∷ []; out_index = pos 0; signature = 5 ∷ []; pub_key = 6 ∷ [] }

abbrev pub payment : Transaction
payment = record {
  id = 2 ∷ [];
  inputs = payment_input ∷ [];
  outputs =
      record { value = pos 20; pub_key = 8 ∷ [] }
      ∷ record { value = pos 30; pub_key = replicate 20 0 }
      ∷ [];
}

abbrev pub genesis : Block
genesis = record {
  index = pos 0;
  timestamp = pos 0;
  prev_hash = [];
  merkle_root = [];
  hash = replicate 32 1;
  nonce = pos 0;
  difficulty = 18;
  transactions = [];
}

-- The block with both on top of it, mined.
abbrev pub block_one : Block
block_one = record {
  index = pos 1;
  timestamp = pos 100;
  prev_hash = replicate 32 1;
  merkle_root = replicate 31 0 ++ 73 ∷ [];
  hash = replicate 31 0 ++ 73 ∷ [];
  nonce = pos 0;
  difficulty = 18;
  transactions = coinbase ∷ payment ∷ [];
}

block_one_is_mined :
    new_block toy_platform (pos 100) (coinbase ∷ payment ∷ []) genesis.hash (pos 1) (genesis ∷ [])
    ≡ block_one
unfolding new_block root_hash run_pow bound_difficulty new_merkle_tree double_hash meets_target
    pow_hash int_to_hex current_difficulty
block_one_is_mined = refl

-- The chain, with the block on top once more among the orphans, and a longer alternative.
abbrev pub chain : Blockchain
chain = record {
  blocks = genesis ∷ block_one ∷ [];
  filename = [];
  orphaned = block_one ∷ [];
  alt_chains = (block_one ∷ block_one ∷ block_one ∷ []) ∷ [];
  block_index = [];
  tx_index = [];
}

-- A wallet with the address of the toy digest.
abbrev pub owner : Wallet
owner = record { private_key_bytes = 3 ∷ []; public_key = 6 ∷ [] }

-- The payment of 10 to the address 8, which spends the second output of the payment.
abbrev pub receipt : Transaction
receipt = record {
  id = replicate 31 0 ++ 186 ∷ [];
  inputs =
      record {
        txid = 2 ∷ [];
        out_index = pos 1;
        signature = 3 ∷ (replicate 31 0 ++ 109 ∷ []);
        pub_key = 6 ∷ [];
      }
      ∷ [];
  outputs =
      record { value = pos 10; pub_key = 8 ∷ [] }
      ∷ record { value = pos 20; pub_key = replicate 20 0 }
      ∷ [];
}
