-- ===== src/Tests/Payments.antt =====
-- The theorems on single transactions and balances, at the sample chain.
use mathlib.Core.List.Perm
use earthion_blockchain_dev.Base.{
  [], ◌∷◌, none, some, false, ◌≡◌, ◌↔◌, refl, arith, All, bytes_equal,
}
use earthion_blockchain_dev.Base.Int.{pos, wrap64, add64}
use earthion_blockchain_dev.Core.Platform.{toy_platform}
use earthion_blockchain_dev.Core.Transaction.{is_coinbase, verify}
use earthion_blockchain_dev.Core.Transaction.Verify.{retarget, verify-retarget}
use earthion_blockchain_dev.Core.Validation.{validate_transaction, validate_transaction_for_mempool}
use earthion_blockchain_dev.Core.Validation.Payments.{
  IsWellFormed, validate_transaction_iff, IsUnspentOrMarker, validate_transaction_for_mempool_iff,
}
use earthion_blockchain_dev.Core.Utxo.{utxo_index, get_balance}
use earthion_blockchain_dev.Core.Utxo.Balance.{owned, get_balance-eq}
use earthion_blockchain_dev.Tests.Samples.{payment, chain, receipt}
use earthion_blockchain_dev.Base.Map.{lookup, erase, insert}
use earthion_blockchain_dev.Base.Format.{outpoint_key, hex_encode, format_int}

verify-retarget_example :
    verify toy_platform (retarget toy_platform (λ i. (7 ∷ [], pos 3)) payment)
    ≡ verify toy_platform payment
unfolding is_coinbase
verify-retarget_example = verify-retarget toy_platform (λ i. (7 ∷ [], pos 3)) payment refl refl

validate_transaction_iff_example :
    (validate_transaction toy_platform (some payment) false ≡ none)
    ↔ IsWellFormed toy_platform payment false
validate_transaction_iff_example =
    validate_transaction_iff toy_platform payment false (omega arith, (omega arith, tt))

validate_transaction_for_mempool_iff_example :
    (validate_transaction_for_mempool toy_platform receipt chain.blocks ≡ none) ↔ (
      IsWellFormed toy_platform receipt (is_coinbase receipt)
      × All (IsUnspentOrMarker (utxo_index chain.blocks)) receipt.inputs)
validate_transaction_for_mempool_iff_example =
    validate_transaction_for_mempool_iff toy_platform receipt chain.blocks
      (omega arith, (omega arith, tt))

-- The receipt is accepted; once its output is spent, the payment is not.
validate_transaction_for_mempool_runs :
    validate_transaction_for_mempool toy_platform receipt chain.blocks ≡ none
unfolding validate_transaction_for_mempool add64 is_coinbase verify lookup utxo_index erase insert
    bytes_equal outpoint_key hex_encode format_int
validate_transaction_for_mempool_runs = refl

get_balance-eq_example :
    get_balance (λ m. m) (8 ∷ []) chain.blocks ≡ wrap64 (owned (8 ∷ []) (utxo_index chain.blocks))
get_balance-eq_example =
    get_balance-eq (λ m. m) (8 ∷ []) chain.blocks (Perm.refl (utxo_index chain.blocks))
