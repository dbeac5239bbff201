-- ===== src/Server/Json.antt =====
-- cmd/server/main.go: the JSON forms that the server answers with.
use earthion_blockchain_dev.Base.{ℕ, List, map, Bytes}
use earthion_blockchain_dev.Base.Int.{ℤ}
use earthion_blockchain_dev.Base.Format.{hex_encode}
use earthion_blockchain_dev.Core.Types.{TxInput, TxOutput, Transaction, Block}

-- `TXInputJSON`, `TXOutputJSON`, `TransactionJSON`, `BlockJSON`, `UTXOJSON`, `StatsJSON`
pub record TxInputJson : Type 0 where
  pub txid : Bytes
  pub out_index : ℤ
  pub signature : Bytes
  pub pub_key : Bytes

pub record TxOutputJson : Type 0 where
  pub value : ℤ
  pub pub_key : Bytes

pub record TransactionJson : Type 0 where
  pub id : Bytes
  pub inputs : List TxInputJson
  pub outputs : List TxOutputJson

pub record BlockJson : Type 0 where
  pub index : ℤ
  pub timestamp : ℤ
  pub prev_hash : Bytes
  pub merkle_root : Bytes
  pub hash : Bytes
  pub nonce : ℤ
  pub difficulty : ℕ
  pub transactions : List TransactionJson

pub record UtxoJson : Type 0 where
  pub key : Bytes
  pub value : TxOutputJson

pub record StatsJson : Type 0 where
  pub height : ℤ
  pub difficulty : ℕ
  pub total_work : ℤ
  pub current_reward : ℕ
  pub total_mined : ℤ
  pub max_supply : ℤ

-- The rounds of the loops of `txToJSON`, and the function.
abbrev pub input_json : TxInput → TxInputJson
input_json i = record {
  txid = hex_encode i.txid;
  out_index = i.out_index;
  signature = hex_encode i.signature;
  pub_key = hex_encode i.pub_key;
}

abbrev pub output_json : TxOutput → TxOutputJson
output_json o = record { value = o.value; pub_key = hex_encode o.pub_key }

unfoldable pub tx_to_json : Transaction → TransactionJson
tx_to_json tx = record {
  id = hex_encode tx.id;
  inputs = map input_json tx.inputs;
  outputs = map output_json tx.outputs;
}

-- `blockToJSON`
unfoldable pub block_to_json : Block → BlockJson
unfolding tx_to_json
block_to_json b = record {
  index = b.index;
  timestamp = b.timestamp;
  prev_hash = hex_encode b.prev_hash;
  merkle_root = hex_encode b.merkle_root;
  hash = hex_encode b.hash;
  nonce = b.nonce;
  difficulty = b.difficulty;
  transactions = map tx_to_json b.transactions;
}

-- The round of the loop of `handleGetUTXO`.
abbrev pub utxo_json : Bytes × TxOutput → UtxoJson
utxo_json (key, out) = record { key = key; value = output_json out }
