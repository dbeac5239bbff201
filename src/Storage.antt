-- ===== src/Storage.antt =====
-- storage/blockchain.go: the chain in a JSON file. The encoder and decoder of encoding/json are
-- parameters; a file is its bytes, and one that is not there, or cannot be made, is an error.
pub mod RoundTrip
use earthion_blockchain_dev.Base.{
  ℕ, List, [], ◌∷◌, map, Option, none, some, Bool, true, false, Bytes, if◌then◌else◌,
}
use earthion_blockchain_dev.Base.Int.{ℤ}
use earthion_blockchain_dev.Base.Format.{hex_encode, hex_decode}
use earthion_blockchain_dev.Base.Map.{lookup, insert}
use earthion_blockchain_dev.Core.Types.{Block}
use earthion_blockchain_dev.Core.Platform.{Platform}
use earthion_blockchain_dev.Core.Transaction.{is_empty}
use earthion_blockchain_dev.Core.Json.{TransactionJson, to_json, transaction_from_json}
use earthion_blockchain_dev.Core.Chain.{
  Blockchain, Disk, new_blockchain, set_filename, rebuild_index,
}

-- `BlockJSON`
pub record BlockJson : Type 0 where
  pub index : ℤ
  pub timestamp : ℤ
  pub prev_hash : Bytes
  pub merkle_root : Bytes
  pub hash : Bytes
  pub nonce : ℤ
  pub difficulty : ℕ
  pub transactions : List TransactionJson

-- `blockToJSON`
unfoldable pub block_to_json : Block → BlockJson
block_to_json b = record {
  index = b.index;
  timestamp = b.timestamp;
  prev_hash = hex_encode b.prev_hash;
  merkle_root = hex_encode b.merkle_root;
  hash = hex_encode b.hash;
  nonce = b.nonce;
  difficulty = b.difficulty;
  transactions = map to_json b.transactions;
}

-- `blockFromJSON`; `none` is nil.
unfoldable pub block_from_json : BlockJson → Option Block
block_from_json bj = elim (hex_decode bj.prev_hash) [
  | none ↦ none
  | some prev_hash ↦ elim (hex_decode bj.merkle_root) [
    | none ↦ none
    | some merkle_root ↦ elim (hex_decode bj.hash) [
      | none ↦ none
      | some hash ↦ some (record {
        index = bj.index;
        timestamp = bj.timestamp;
        prev_hash = prev_hash;
        merkle_root = merkle_root;
        hash = hash;
        nonce = bj.nonce;
        difficulty = bj.difficulty;
        transactions = map transaction_from_json bj.transactions;
      })
    ]
  ]
]

-- The loop of `LoadBlockchain`: a block that is nil or has no hash is an error.
unfoldable pub blocks_from_json : List BlockJson → Option (List Block)
unfolding block_from_json
blocks_from_json [] = some []
blocks_from_json (bj ∷ bjs) =
    let rest = blocks_from_json bjs in
    elim (block_from_json bj) [
      | none ↦ none
      | some b ↦ elim (is_empty b.hash) [
        | true ↦ none
        | false ↦ elim rest [ none ↦ none | some bs ↦ some (b ∷ bs) ]
      ]
    ]

-- encoding/json on the blocks of a file.
pub record Json : Type 0 where
  pub encode : List BlockJson → Bytes
  pub decode : Bytes → Option (List BlockJson)

module _ (j : Json) where
  -- `SaveBlockchain`: the disk after it, and whether there is no error.
  unfoldable pub save_blockchain : Bool → Blockchain → Bytes → Disk → Disk × Bool
  unfolding block_to_json
  save_blockchain can_create bc filename disk =
      if can_create
      then (insert filename (j.encode (map block_to_json bc.blocks)) disk, true)
      else (disk, false)

  -- `LoadBlockchain` at Unix time `now`; `none` is an error.
  unfoldable pub load_blockchain : Platform → ℤ → Bytes → Disk → Option Blockchain
  unfolding blocks_from_json
  load_blockchain p now filename disk = elim (lookup filename disk) [
    | none ↦ none
    | some file ↦ elim (j.decode file) [
      | none ↦ none
      | some bjs ↦ elim (blocks_from_json bjs) [
        | none ↦ none
        | some blocks ↦ some (
            rebuild_index
              (record (set_filename filename (new_blockchain p now)) { blocks = blocks }))
      ]
    ]
  ]
