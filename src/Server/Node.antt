-- ===== src/Server/Node.antt =====
-- cmd/server/main.go: the state of the server, its requests and its answers. A request is what the
-- router has taken apart; the body of a POST is what encoding/json made of it.
use earthion_blockchain_dev.Base.{ℕ, List, Option, Bool, Bytes}
use earthion_blockchain_dev.Base.Int.{ℤ}
use earthion_blockchain_dev.Base.Map.{Map}
use earthion_blockchain_dev.Core.Types.{TxOutput}
use earthion_blockchain_dev.Core.Chain.{Blockchain, Disk}
use earthion_blockchain_dev.Core.Payment.{Payment}
use earthion_blockchain_dev.Wallet.{Wallet}
use earthion_blockchain_dev.Server.Json.{TransactionJson, BlockJson, UtxoJson, StatsJson}

-- The variables `bc` and `wal`, and the files.
pub record Node : Type 0 where
  pub chain : Blockchain
  pub wallet : Wallet
  pub disk : Disk

-- What a call reads from outside: the clock, whether the chain's file can be created, random bytes,
-- and the orders in which the map of unspent outputs is visited.
pub record Env : Type 0 where
  pub now : ℤ
  pub can_create : Bool
  pub nonce : Bytes
  pub visit : Map TxOutput → Map TxOutput
  pub visit_again : Map TxOutput → Map TxOutput

-- The body of `POST /api/transaction`.
pub record PaymentRequest : Type 0 where
  pub to : Bytes
  pub amount : ℤ

pub data Request : Type 0 where
  health : Request
  get_blocks : Request
  block_by_hash : Bytes → Request
  block_at_index : Bytes → Request
  get_wallet_address : Request
  balance_of : Bytes → Request
  get_utxo : Request
  transaction_by_id : Bytes → Request
  create_transaction : Option PaymentRequest → Request
  mine : Request
  validate_request : Request
  get_stats : Request
  cli : Request

-- The texts of errors.
pub data ApiError : Type 0 where
  hash_required : ApiError
  invalid_hash_format : ApiError
  block_not_found : ApiError
  invalid_index : ApiError
  address_required : ApiError
  invalid_address : ApiError
  txid_required : ApiError
  invalid_txid_format : ApiError
  transaction_not_found : ApiError
  invalid_request_body : ApiError
  invalid_to_length : ApiError
  amount_must_be_positive : ApiError
  invalid_to_address : ApiError
  payment_failed : Payment → ApiError

-- The data of a successful answer.
pub data Body : Type 0 where
  blocks_body : List BlockJson → Body
  block_body : BlockJson → Body
  tx_body : TransactionJson → Body
  balance_body : ℤ → Body
  utxos_body : List UtxoJson → Body
  valid_body : Bool → Body
  stats_body : StatsJson → Body
  address_body : Bytes → Bytes → Body
  healthy : Body
  api_server : Body

-- `writeJSON` of an `APIResponse`: a success, or an error, with its status.
pub data Response : Type 0 where
  success : ℕ → Body → Response
  failure : ℕ → ApiError → Response

-- `http.StatusOK` and the other statuses.
abbrev pub status_ok : ℕ
status_ok = 200

abbrev pub status_created : ℕ
status_created = 201

abbrev pub status_bad_request : ℕ
status_bad_request = 400

abbrev pub status_not_found : ℕ
status_not_found = 404
