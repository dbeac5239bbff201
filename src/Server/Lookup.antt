-- ===== src/Server/Lookup.antt =====
-- GET /api/blocks/{hash} and GET /api/transaction/{txid} on a chain whose indices are right.
use earthion_blockchain_dev.Base.{[], ◌∷◌, Option, false, Bytes, All, ◌≡◌, ◌≢◌, refl}
use earthion_blockchain_dev.Base.Format.{IsByte, hex_encode, hex_decode-hex_encode}
use earthion_blockchain_dev.Base.Outcome.{returns}
use earthion_blockchain_dev.Core.Types.{Block}
use earthion_blockchain_dev.Core.Transaction.{is_empty}
use earthion_blockchain_dev.Core.Chain.Index.{IsIndexed}
use earthion_blockchain_dev.Core.Chain.Search.{IsBlockAnswer, get_block-IsBlockAnswer}
use earthion_blockchain_dev.Server.Node.{Node}
use earthion_blockchain_dev.Server.Handlers.{answer_block, handle_get_block_by_hash}

-- The digits of a hash that is not empty are not empty.
hex_encode-not_empty : (h : Bytes) → h ≢ [] → is_empty (hex_encode h) ≡ false
unfolding hex_encode
hex_encode-not_empty [] ne = absurd (ne refl)
hex_encode-not_empty (b ∷ h) ne = refl

-- GET /api/blocks/{hash} with the hexadecimal digits of a hash that is not empty, on a node whose
-- indices are right: it answers 200 with a block of the chain that has the hash, or 404 if no block
-- of the chain has it.
pub handle_get_block_by_hash-IsBlockAnswer :
    (h : Bytes) (n : Node)
    → h ≢ []
    → All IsByte h
    → IsIndexed n.chain
    → (o : Option Block) × (handle_get_block_by_hash (hex_encode h) n ≡ returns (answer_block o))
      × IsBlockAnswer h n.chain.blocks o
unfolding handle_get_block_by_hash
handle_get_block_by_hash-IsBlockAnswer h n ne bytes indexed =
    let (o, e, a) = get_block-IsBlockAnswer h n.chain indexed in
    (
      o,
      rw (hex_encode-not_empty h ne, hex_decode-hex_encode h bytes, e, handle_get_block_by_hash)
          refl,
      a,
    )
