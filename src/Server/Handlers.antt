-- ===== src/Server/Handlers.antt =====
-- cmd/server/main.go: the handlers.
use earthion_blockchain_dev.Base.{
  List, [], ◌∷◌, map, Option, none, some, Bytes, length, ◌==◌, last?, if◌then◌else◌,
}
use earthion_blockchain_dev.Base.Int.{pos, leb_ℤ, sub64}
use earthion_blockchain_dev.Base.Format.{hex_encode, hex_decode}
use earthion_blockchain_dev.Base.Scan.{scan_int}
use earthion_blockchain_dev.Base.Outcome.{Outcome, returns, panics}
use earthion_blockchain_dev.Core.Types.{Transaction, Block}
use earthion_blockchain_dev.Core.Platform.{Platform}
use earthion_blockchain_dev.Core.Transaction.{is_empty, coinbase_tx}
use earthion_blockchain_dev.Core.Reward.{get_block_reward, get_total_mined, get_max_supply}
use earthion_blockchain_dev.Core.Utxo.{utxo_index, get_balance}
use earthion_blockchain_dev.Core.Chain.{
  add_block, get_block, find_transaction, chain_height, last_block, get_block_by_index,
}
use earthion_blockchain_dev.Core.Fork.{total_work}
use earthion_blockchain_dev.Core.Validate.{validate}
use earthion_blockchain_dev.Core.Payment.{Payment, paid, new_transaction}
use earthion_blockchain_dev.Wallet.{get_raw_address, address_hex}
use earthion_blockchain_dev.Server.Json.{tx_to_json, block_to_json, utxo_json}
use earthion_blockchain_dev.Server.Node.{
  Node, Env, PaymentRequest, Request, health, get_blocks, block_by_hash, block_at_index,
  get_wallet_address, balance_of, get_utxo, transaction_by_id, create_transaction, mine,
  validate_request, get_stats, cli, hash_required, invalid_hash_format, block_not_found,
  invalid_index, address_required, invalid_address, txid_required, invalid_txid_format,
  transaction_not_found, invalid_request_body, invalid_to_length, amount_must_be_positive,
  invalid_to_address, payment_failed, blocks_body, block_body, tx_body, balance_body, utxos_body,
  valid_body, stats_body, address_body, healthy, api_server, Response, success, failure, status_ok,
  status_created, status_bad_request, status_not_found,
}

-- The block, if there is one: `handleGetBlockByHash` and `handleGetBlockByIndex` end alike.
abbrev pub answer_block : Option Block → Response
answer_block none = failure status_not_found block_not_found
answer_block (some b) = success status_ok (block_body (block_to_json b))

-- `handleGetBlocks`
unfoldable pub handle_get_blocks : Node → Response
handle_get_blocks n = success status_ok (blocks_body (map block_to_json n.chain.blocks))

-- `handleGetBlockByHash`
unfoldable pub handle_get_block_by_hash : Bytes → Node → Outcome Response
handle_get_block_by_hash hash n =
    if is_empty hash
    then returns (failure status_bad_request hash_required)
    else elim (hex_decode hash) [
      | none ↦ returns (failure status_bad_request invalid_hash_format)
      | some hash_bytes ↦ elim (get_block hash_bytes n.chain) [
        | panics ↦ panics
        | returns b ↦ returns (answer_block b)
      ]
    ]

-- `handleGetBlockByIndex`
unfoldable pub handle_get_block_by_index : Bytes → Node → Response
handle_get_block_by_index index n = elim (scan_int index) [
  | none ↦ failure status_bad_request invalid_index
  | some (i, rest) ↦ answer_block (get_block_by_index i n.chain)
]

-- `handleGetBalance`
unfoldable pub handle_get_balance : Env → Bytes → Node → Response
handle_get_balance env address n =
    if is_empty address
    then failure status_bad_request address_required
    else elim (hex_decode address) [
      | none ↦ failure status_bad_request invalid_address
      | some bytes ↦
          if length bytes == 20
          then success status_ok (balance_body (get_balance env.visit bytes n.chain.blocks))
          else failure status_bad_request invalid_address
    ]

-- `handleGetUTXO`
unfoldable pub handle_get_utxo : Env → Node → Response
handle_get_utxo env n =
    success status_ok (utxos_body (map utxo_json (env.visit (utxo_index n.chain.blocks))))

-- `handleGetTransaction`
unfoldable pub handle_get_transaction : Bytes → Node → Response
handle_get_transaction txid n =
    if is_empty txid then failure status_bad_request txid_required else elim (hex_decode txid) [
      | none ↦ failure status_bad_request invalid_txid_format
      | some bytes ↦ elim (find_transaction bytes n.chain) [
        | none ↦ failure status_not_found transaction_not_found
        | some tx ↦ success status_ok (tx_body (tx_to_json tx))
      ]
    ]

-- `handleGetWalletAddress`
unfoldable pub handle_get_wallet_address : Platform → Node → Response
handle_get_wallet_address p n =
    success status_ok
      (address_body (address_hex p n.wallet) (hex_encode (get_raw_address p n.wallet)))

-- `handleStats`
unfoldable pub handle_stats : Node → Response
handle_stats n =
    let height = pos (chain_height n.chain) in
    success status_ok (
      stats_body (record {
        height = height;
        difficulty = elim (last_block n.chain) [ none ↦ 0 | some b ↦ b.difficulty ];
        total_work = total_work n.chain;
        current_reward = get_block_reward height;
        total_mined = get_total_mined (sub64 height (pos 1));
        max_supply = get_max_supply;
      }))

module _ (p : Platform) (env : Env) where
  -- `bc.AddBlock(txs)`, on the node.
  unfoldable pub append_block : List Transaction → Node → Outcome Node
  append_block txs n = elim (add_block p env.now env.can_create txs n.chain n.disk) [
    | panics ↦ panics
    | returns (chain, disk) ↦ returns (record n { chain = chain; disk = disk })
  ]

  -- The coinbase of `handleMine`.
  unfoldable pub mining_reward : Node → Transaction
  mining_reward n =
      coinbase_tx p (get_raw_address p n.wallet)
        (pos (get_block_reward (pos (length n.chain.blocks)))) (pos (length n.chain.blocks))
        (elim (last? n.chain.blocks) [ none ↦ [] | some b ↦ b.hash ])

  -- The answer of `handleMine`: the tip of the chain, which is nil if there is none.
  abbrev pub answer_mined : Node → Outcome (Node × Response)
  answer_mined n = elim (last_block n.chain) [
    | none ↦ panics
    | some b ↦ returns (n, success status_created (block_body (block_to_json b)))
  ]

  -- `handleMine`
  unfoldable pub handle_mine : Node → Outcome (Node × Response)
  unfolding append_block mining_reward
  handle_mine n = elim (append_block (mining_reward n ∷ []) n) [
    | panics ↦ panics
    | returns n' ↦ answer_mined n'
  ]

  -- `handleCreateTransaction` behind the call of NewTransaction.
  abbrev pub answer_payment : Payment → Node → Outcome (Node × Response)
  answer_payment (paid tx) n = elim (append_block (tx ∷ []) n) [
    | panics ↦ panics
    | returns n' ↦ returns (n', success status_created (tx_body (tx_to_json tx)))
  ]
  answer_payment e n = returns (n, failure status_bad_request (payment_failed e))

  -- `handleCreateTransaction`; `none` is a body that does not decode.
  unfoldable pub handle_create_transaction :
      Option PaymentRequest → Node → Outcome (Node × Response)
  unfolding append_block
  handle_create_transaction none n = returns (n, failure status_bad_request invalid_request_body)
  handle_create_transaction (some req) n =
      if length req.to == 40
      then (if leb_ℤ req.amount (pos 0)
          then returns (n, failure status_bad_request amount_must_be_positive)
          else elim (hex_decode req.to) [
            | none ↦ returns (n, failure status_bad_request invalid_to_address)
            | some to_bytes ↦
                answer_payment
                  (new_transaction p env.visit env.visit_again env.nonce n.wallet to_bytes
                    req.amount n.chain.blocks)
                  n
          ])
      else returns (n, failure status_bad_request invalid_to_length)

  -- `handleValidate`
  unfoldable pub handle_validate : Node → Outcome Response
  handle_validate n = elim (validate p n.chain.blocks) [
    | panics ↦ panics
    | returns valid ↦ returns (success status_ok (valid_body valid))
  ]

  -- An answer that leaves the node as it is.
  abbrev pub keep : Node → Outcome Response → Outcome (Node × Response)
  keep n panics = panics
  keep n (returns r) = returns (n, r)

  -- The handlers, as `main` registers them.
  unfoldable pub handle : Request → Node → Outcome (Node × Response)
  unfolding handle_validate
  handle health n = returns (n, success status_ok healthy)
  handle get_blocks n = returns (n, handle_get_blocks n)
  handle (block_by_hash hash) n = keep n (handle_get_block_by_hash hash n)
  handle (block_at_index index) n = returns (n, handle_get_block_by_index index n)
  handle get_wallet_address n = returns (n, handle_get_wallet_address p n)
  handle (balance_of address) n = returns (n, handle_get_balance env address n)
  handle get_utxo n = returns (n, handle_get_utxo env n)
  handle (transaction_by_id txid) n = returns (n, handle_get_transaction txid n)
  handle (create_transaction body) n = handle_create_transaction body n
  handle mine n = handle_mine n
  handle validate_request n = keep n (handle_validate n)
  handle get_stats n = returns (n, handle_stats n)
  handle cli n = returns (n, success status_ok api_server)
