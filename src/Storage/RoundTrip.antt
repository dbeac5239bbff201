-- ===== src/Storage/RoundTrip.antt =====
-- A chain survives its file.
use earthion_blockchain_dev.Base.{
  List, [], ◌∷◌, map, some, true, false, Bytes, bytes_equal_refl, All, ◌≡◌, ◌≢◌, refl,
}
use earthion_blockchain_dev.Base.Int.{ℤ}
use earthion_blockchain_dev.Base.Format.{IsByte, hex_decode-hex_encode}
use earthion_blockchain_dev.Base.Map.{lookup-insert}
use earthion_blockchain_dev.Core.Types.{Transaction, Block}
use earthion_blockchain_dev.Core.Platform.{Platform}
use earthion_blockchain_dev.Core.Transaction.{is_empty}
use earthion_blockchain_dev.Core.Json.{to_json, transaction_from_json}
use earthion_blockchain_dev.Core.Json.RoundTrip.{TxBytes, transaction_from_json-to_json}
use earthion_blockchain_dev.Core.Chain.{
  Blockchain, Disk, new_blockchain, set_filename, rebuild_index,
}
use earthion_blockchain_dev.Storage.{
  block_to_json, block_from_json, blocks_from_json, Json, save_blockchain, load_blockchain,
}

-- A block with a hash, all of whose byte strings hold bytes.
pub record IsStorable (b : Block) : Type 0 where
  pub hashed : b.hash ≢ []
  pub hash_bytes : All IsByte b.hash
  pub prev_hash_bytes : All IsByte b.prev_hash
  pub merkle_root_bytes : All IsByte b.merkle_root
  pub tx_bytes : All TxBytes b.transactions

txs_back :
    (txs : List Transaction) → All TxBytes txs → map transaction_from_json (map to_json txs) ≡ txs
txs_back [] h = refl
txs_back (tx ∷ txs) (a, r) = rw (transaction_from_json-to_json tx a, txs_back txs r) refl

block_back : (b : Block) → IsStorable b → block_from_json (block_to_json b) ≡ some b
unfolding block_from_json block_to_json
block_back b h =
    rw
      (
        block_from_json,
        hex_decode-hex_encode b.prev_hash h.prev_hash_bytes,
        hex_decode-hex_encode b.merkle_root h.merkle_root_bytes,
        hex_decode-hex_encode b.hash h.hash_bytes,
        txs_back b.transactions h.tx_bytes,
      )
      refl

not_empty : (b : Bytes) → b ≢ [] → is_empty b ≡ false
not_empty [] h = absurd (h refl)
not_empty (x ∷ b) h = refl

blocks_back :
    (bs : List Block) → All IsStorable bs → blocks_from_json (map block_to_json bs) ≡ some bs
unfolding blocks_from_json
blocks_back [] h = refl
blocks_back (b ∷ bs) (a, r) =
    rw (blocks_from_json, block_back b a, not_empty b.hash a.hashed, blocks_back bs r) refl

-- What LoadBlockchain reads from the file that SaveBlockchain wrote is the chain with its blocks,
-- its indices rebuilt and the name of the file, whatever else is on the disk: if encoding/json
-- decodes what it encoded, and every block is storable.
pub load_blockchain-save_blockchain :
    (j : Json) (p : Platform) (now : ℤ) (bc : Blockchain) (filename : Bytes) (disk : Disk)
    → j.decode (j.encode (map block_to_json bc.blocks)) ≡ some (map block_to_json bc.blocks)
    → All IsStorable bc.blocks
    → load_blockchain j p now filename (save_blockchain j true bc filename disk).0
      ≡ some (
          rebuild_index
            (record (set_filename filename (new_blockchain p now)) { blocks = bc.blocks }))
unfolding load_blockchain save_blockchain
load_blockchain-save_blockchain j p now bc filename disk decodes h =
    rw
      (
        load_blockchain,
        lookup-insert filename filename (j.encode (map block_to_json bc.blocks)) disk,
        bytes_equal_refl filename,
        decodes,
        blocks_back bc.blocks h,
      )
      refl
