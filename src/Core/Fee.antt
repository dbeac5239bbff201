-- ===== src/Core/Fee.antt =====
-- core/fee.go.
pub mod Bounds
use earthion_blockchain_dev.Base.{
  ℕ, List, [], ◌∷◌, ◌++◌, Option, none, some, Bool, true, false, Bytes, length, ◌==◌, if◌then◌else◌,
}
use earthion_blockchain_dev.Base.Int.{ℤ, pos, minus_one, eqb_ℤ, ltb_ℤ, leb_ℤ, add64, sub64, mul64}
use earthion_blockchain_dev.Base.Map.{Map, lookup}
use earthion_blockchain_dev.Base.Format.{hex_encode}
use earthion_blockchain_dev.Core.Types.{TxInput, TxOutput, Transaction}
use earthion_blockchain_dev.Core.Platform.{Platform}
use earthion_blockchain_dev.Core.Utils.{itoa}

abbrev pub min_fee_rate : ℤ
min_fee_rate = pos 1

abbrev pub default_fee_rate : ℤ
default_fee_rate = pos 10

abbrev pub max_fee_rate : ℤ
max_fee_rate = pos 1000

pub record FeeCalculator : Type 0 where
  pub fee_rate : ℤ

-- `NewFeeCalculator`
unfoldable pub new_fee_calculator : FeeCalculator
new_fee_calculator = record { fee_rate = default_fee_rate }

-- `SetFeeRate`
unfoldable pub set_fee_rate : ℤ → FeeCalculator → FeeCalculator
set_fee_rate rate fc =
    if ltb_ℤ rate min_fee_rate
    then record fc { fee_rate = min_fee_rate }
    else if ltb_ℤ max_fee_rate rate
    then record fc { fee_rate = max_fee_rate }
    else record fc { fee_rate = rate }

-- `GetFeeRate`
unfoldable pub get_fee_rate : FeeCalculator → ℤ
get_fee_rate fc = fc.fee_rate

-- `CalculateFee`
unfoldable pub calculate_fee : Platform → FeeCalculator → Transaction → ℤ
calculate_fee p fc tx = mul64 (pos (length (p.encode_tx tx))) fc.fee_rate

-- `CalculateFeeForInputsOutputs`
unfoldable pub calculate_fee_for_inputs_outputs : FeeCalculator → ℤ → ℤ → ℤ
calculate_fee_for_inputs_outputs fc inputs outputs =
    mul64 (add64 (add64 (pos 10) (mul64 inputs (pos 140))) (mul64 outputs (pos 28))) fc.fee_rate

-- The loop of `CalculateTotalInputs`: it passes over every input and adds nothing.
skip_inputs : List TxInput → ℤ → ℤ
skip_inputs [] total = total
skip_inputs (i ∷ is) total = elim (eqb_ℤ i.out_index minus_one) [
  | true ↦ skip_inputs is total
  | false ↦ skip_inputs is total
]

unfoldable pub calculate_total_inputs : Transaction → ℤ
unfolding skip_inputs
calculate_total_inputs tx = skip_inputs tx.inputs (pos 0)

-- `CalculateTotalOutputs`
unfoldable pub add_outputs : List TxOutput → ℤ → ℤ
add_outputs [] total = total
add_outputs (o ∷ os) total = add_outputs os (add64 total o.value)

unfoldable pub calculate_total_outputs : Transaction → ℤ
unfolding add_outputs
calculate_total_outputs tx = add_outputs tx.outputs (pos 0)

-- The loop of `GetTxFee` over the inputs; `utxos` is the chain's UTXOIndex.
add_inputs : Map TxOutput → List TxInput → ℤ → ℤ
add_inputs utxos [] total = total
add_inputs utxos (i ∷ is) total = add_inputs utxos is (
    if eqb_ℤ i.out_index minus_one
    then total
    else elim (lookup (hex_encode i.txid ++ b':' ∷ itoa i.out_index) utxos) [
      | none ↦ total
      | some utxo ↦ add64 total utxo.value
    ])

-- `GetTxFee`
unfoldable pub get_tx_fee : Transaction → Map TxOutput → ℤ
unfolding add_inputs
get_tx_fee tx utxos = sub64 (add_inputs utxos tx.inputs (pos 0)) (calculate_total_outputs tx)

-- `IsFeeSufficient`
unfoldable pub is_fee_sufficient : Platform → FeeCalculator → Transaction → Bool
unfolding calculate_fee
is_fee_sufficient p fc tx =
    leb_ℤ (calculate_fee p fc tx) (sub64 (calculate_total_inputs tx) (calculate_total_outputs tx))
