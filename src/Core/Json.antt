-- ===== src/Core/Json.antt =====
-- core/transaction.go: the JSON forms of transactions, with every byte string in hex.
pub mod RoundTrip
use earthion_blockchain_dev.Base.{List, [], map, Option, none, some, Bytes}
use earthion_blockchain_dev.Base.Int.{ℤ}
use earthion_blockchain_dev.Base.Format.{hex_encode, hex_decode}
use earthion_blockchain_dev.Core.Types.{TxInput, TxOutput, Transaction}

-- `TXInputJSON`
pub record TxInputJson : Type 0 where
  pub txid : Bytes
  pub out_index : ℤ
  pub signature : Bytes
  pub pub_key : Bytes

-- `TXOutputJSON`
pub record TxOutputJson : Type 0 where
  pub value : ℤ
  pub pub_key : Bytes

-- `TransactionJSON`
pub record TransactionJson : Type 0 where
  pub id : Bytes
  pub inputs : List TxInputJson
  pub outputs : List TxOutputJson

-- The rounds of the loops of `ToJSON`, and the method.
abbrev pub input_to_json : TxInput → TxInputJson
input_to_json i = record {
  txid = hex_encode i.txid;
  out_index = i.out_index;
  signature = hex_encode i.signature;
  pub_key = hex_encode i.pub_key;
}

abbrev pub output_to_json : TxOutput → TxOutputJson
output_to_json o = record { value = o.value; pub_key = hex_encode o.pub_key }

unfoldable pub to_json : Transaction → TransactionJson
to_json tx = record {
  id = hex_encode tx.id;
  inputs = map input_to_json tx.inputs;
  outputs = map output_to_json tx.outputs;
}

-- `decodeHex`: no bytes if there is an error. The empty string decodes to no bytes.
unfoldable pub decode_hex : Bytes → Bytes
decode_hex s = elim (hex_decode s) [ none ↦ [] | some b ↦ b ]

-- The rounds of the loops of `TransactionFromJSON`, and the function.
unfoldable pub input_from_json : TxInputJson → TxInput
unfolding decode_hex
input_from_json i = record {
  txid = decode_hex i.txid;
  out_index = i.out_index;
  signature = decode_hex i.signature;
  pub_key = decode_hex i.pub_key;
}

unfoldable pub output_from_json : TxOutputJson → TxOutput
unfolding decode_hex
output_from_json o = record { value = o.value; pub_key = decode_hex o.pub_key }

unfoldable pub transaction_from_json : TransactionJson → Transaction
unfolding input_from_json output_from_json
transaction_from_json tj = record {
  id = decode_hex tj.id;
  inputs = map input_from_json tj.inputs;
  outputs = map output_from_json tj.outputs;
}
