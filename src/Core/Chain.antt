-- ===== src/Core/Chain.antt =====
-- core/blockchain.go: the chain, its indices, orphaned blocks and alternative chains. Log lines are
-- not modelled; a call that can panic has an `Outcome`.
pub mod Index
pub mod Extend
pub mod Search
use earthion_blockchain_dev.Base.{
  ℕ, zero, suc, ◌+◌, ◌-◌, List, [], ◌∷◌, ◌++◌, Option, none, some, Bool, true, false, Bytes,
  bytes_equal, length, last?, get_elem?, leb, if◌then◌else◌,
}
use earthion_blockchain_dev.Base.Int.{ℤ, pos, negsuc, add64}
use earthion_blockchain_dev.Base.Format.{hex_encode}
use earthion_blockchain_dev.Base.Map.{Map, lookup, insert}
use earthion_blockchain_dev.Base.Outcome.{Outcome, returns, panics}
use earthion_blockchain_dev.Core.Types.{Transaction, Block}
use earthion_blockchain_dev.Core.Platform.{Platform}
use earthion_blockchain_dev.Core.Pow.{validate_pow}
use earthion_blockchain_dev.Core.Block.{new_block, genesis_block}
use earthion_blockchain_dev.Core.Transaction.{is_empty}

-- `Blockchain`
pub record Blockchain : Type 0 where
  pub blocks : List Block
  pub filename : Bytes
  pub orphaned : List Block
  pub alt_chains : List (List Block)
  pub block_index : Map ℤ
  pub tx_index : Map Transaction

-- The inner loop of both index functions.
pub index_txs : List Transaction → Map Transaction → Map Transaction
index_txs [] m = m
index_txs (tx ∷ txs) m = index_txs txs (insert (hex_encode tx.id) tx m)

-- The loops of `rebuildIndex` over the blocks from position `i`.
pub index_hashes : List Block → ℕ → Map ℤ → Map ℤ
index_hashes [] i m = m
index_hashes (b ∷ bs) i m = index_hashes bs (suc i) (insert (hex_encode b.hash) (pos i) m)

pub index_all_txs : List Block → Map Transaction → Map Transaction
index_all_txs [] m = m
index_all_txs (b ∷ bs) m = index_all_txs bs (index_txs b.transactions m)

-- `rebuildIndex`
unfoldable pub rebuild_index : Blockchain → Blockchain
unfolding index_txs index_hashes index_all_txs
rebuild_index bc = record bc {
  block_index = index_hashes bc.blocks 0 [];
  tx_index = index_all_txs bc.blocks [];
}

-- `updateIndex`: the position is the block's own index.
unfoldable pub update_index : Block → Blockchain → Blockchain
unfolding index_txs
update_index b bc = record bc {
  block_index = insert (hex_encode b.hash) b.index bc.block_index;
  tx_index = index_txs b.transactions bc.tx_index;
}

-- `SetFilename`
unfoldable pub set_filename : Bytes → Blockchain → Blockchain
set_filename filename bc = record bc { filename = filename }

-- The files, by name.
abbrev pub Disk : Type 0
Disk = Map Bytes

module _ (p : Platform) where
  -- `NewBlockchain`, at Unix time `now`.
  unfoldable pub new_blockchain : ℤ → Blockchain
  unfolding rebuild_index
  new_blockchain now = rebuild_index (record {
    blocks = genesis_block p now ∷ [];
    filename = [];
    orphaned = [];
    alt_chains = [];
    block_index = [];
    tx_index = [];
  })

  -- The new block of `AddBlock` on a tip.
  unfoldable pub next_block : ℤ → List Transaction → Block → List Block → Block
  next_block now txs prev blocks = new_block p now txs prev.hash (add64 prev.index (pos 1)) blocks

  -- `AddBlock` up to the save: the tip of an empty chain is out of range.
  unfoldable pub extend : ℤ → List Transaction → Blockchain → Outcome Blockchain
  unfolding next_block update_index
  extend now txs bc = elim (last? bc.blocks) [
    | none ↦ panics
    | some prev ↦
        let b = next_block now txs prev bc.blocks in
        returns (update_index b (record bc { blocks = bc.blocks ++ b ∷ [] }))
  ]

  -- `saveToFile`: nothing is written if the file cannot be created.
  unfoldable pub save_to_file : Bool → Bytes → Blockchain → Disk → Disk
  save_to_file can_create filename bc disk =
      if can_create then insert filename (p.encode_chain bc.blocks) disk else disk

  -- `AddBlock`
  unfoldable pub add_block :
      ℤ → Bool → List Transaction → Blockchain → Disk → Outcome (Blockchain × Disk)
  unfolding extend save_to_file
  add_block now can_create txs bc disk = elim (extend now txs bc) [
    | panics ↦ panics
    | returns bc' ↦
        returns (
          bc',
          if is_empty bc'.filename then disk else save_to_file can_create bc'.filename bc' disk,
        )
  ]

-- `bc.Blocks[i]`
unfoldable pub block_at : List Block → ℤ → Outcome Block
block_at blocks (negsuc i) = panics
block_at blocks (pos i) = elim (get_elem? blocks i) [ none ↦ panics | some b ↦ returns b ]

-- The linear search of `GetBlock`.
unfoldable pub find_block : Bytes → List Block → Option Block
find_block hash [] = none
find_block hash (b ∷ bs) = if bytes_equal b.hash hash then some b else find_block hash bs

some_block : Outcome Block → Outcome (Option Block)
some_block panics = panics
some_block (returns b) = returns (some b)

-- `GetBlock`: the index first, then the search.
unfoldable pub get_block : Bytes → Blockchain → Outcome (Option Block)
unfolding block_at find_block some_block
get_block block_hash bc = elim (lookup (hex_encode block_hash) bc.block_index) [
  | some idx ↦ some_block (block_at bc.blocks idx)
  | none ↦ returns (find_block block_hash bc.blocks)
]

-- `GetBlockByIndex`
unfoldable pub get_block_by_index : ℤ → Blockchain → Option Block
get_block_by_index (negsuc i) bc = none
get_block_by_index (pos i) bc = get_elem? bc.blocks i

-- The linear search of `FindTransaction`.
pub find_in_txs : Bytes → List Transaction → Option Transaction
find_in_txs txid [] = none
find_in_txs txid (tx ∷ txs) = if bytes_equal tx.id txid then some tx else find_in_txs txid txs

pub find_in_blocks : Bytes → List Block → Option Transaction
unfolding find_in_txs
find_in_blocks txid [] = none
find_in_blocks txid (b ∷ bs) = elim (find_in_txs txid b.transactions) [
  | some tx ↦ some tx
  | none ↦ find_in_blocks txid bs
]

-- `FindTransaction`
unfoldable pub find_transaction : Bytes → Blockchain → Option Transaction
unfolding find_in_blocks
find_transaction txid bc = elim (lookup (hex_encode txid) bc.tx_index) [
  | some tx ↦ some tx
  | none ↦ find_in_blocks txid bc.blocks
]

-- `ChainHeight`, `LastBlock`
unfoldable pub chain_height : Blockchain → ℕ
chain_height bc = length bc.blocks

unfoldable pub last_block : Blockchain → Option Block
last_block bc = last? bc.blocks
