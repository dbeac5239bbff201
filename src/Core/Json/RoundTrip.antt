-- ===== src/Core/Json/RoundTrip.antt =====
-- A transaction survives its JSON form.
use earthion_blockchain_dev.Base.{List, [], ◌∷◌, map, Bytes, All, ◌≡◌, refl}
use earthion_blockchain_dev.Base.Format.{IsByte, hex_encode, hex_decode-hex_encode}
use earthion_blockchain_dev.Core.Types.{TxInput, TxOutput, Transaction}
use earthion_blockchain_dev.Core.Json.{
  input_to_json, output_to_json, to_json, decode_hex, input_from_json, output_from_json,
  transaction_from_json,
}

-- The byte strings of a transaction hold bytes.
abbrev pub InputBytes : TxInput → Type 0
InputBytes i = All IsByte i.txid × All IsByte i.signature × All IsByte i.pub_key

abbrev pub OutputBytes : TxOutput → Type 0
OutputBytes o = All IsByte o.pub_key

abbrev pub TxBytes : Transaction → Type 0
TxBytes tx = All IsByte tx.id × All InputBytes tx.inputs × All OutputBytes tx.outputs

decode_hex-hex_encode : (b : Bytes) → All IsByte b → decode_hex (hex_encode b) ≡ b
unfolding decode_hex
decode_hex-hex_encode b h = rw (decode_hex, hex_decode-hex_encode b h) refl

inputs_back :
    (is : List TxInput) → All InputBytes is → map input_from_json (map input_to_json is) ≡ is
unfolding input_from_json
inputs_back [] h = refl
inputs_back (i ∷ is) ((a, b, c), r) =
    rw
      (
        decode_hex-hex_encode i.txid a,
        decode_hex-hex_encode i.signature b,
        decode_hex-hex_encode i.pub_key c,
        inputs_back is r,
      )
      refl

outputs_back :
    (os : List TxOutput) → All OutputBytes os → map output_from_json (map output_to_json os) ≡ os
unfolding output_from_json
outputs_back [] h = refl
outputs_back (o ∷ os) (a, r) = rw (decode_hex-hex_encode o.pub_key a, outputs_back os r) refl

-- TransactionFromJSON of ToJSON of a transaction is the transaction.
pub transaction_from_json-to_json :
    (tx : Transaction) → TxBytes tx → transaction_from_json (to_json tx) ≡ tx
unfolding transaction_from_json to_json
transaction_from_json-to_json tx (a, b, c) =
    rw (decode_hex-hex_encode tx.id a, inputs_back tx.inputs b, outputs_back tx.outputs c) refl
