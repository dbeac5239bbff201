-- ===== src/Core/Fee/Bounds.antt =====
-- The fee rate stays in its bounds, and what IsFeeSufficient decides.
use earthion_blockchain_dev.Base.{
  ℕ, suc, ◌+◌, ◌*◌, ◌^◌, ◌≤◌, ◌<◌, ◌∙◌, ap, List, [], ◌∷◌, false, length, All, ◌≡◌, refl, arith,
}
use earthion_blockchain_dev.Base.Int.{
  ℤ, pos, negsuc, ◌≤ℤ◌, add64, sub64, mul64, add64-pos, pos_part,
}
use earthion_blockchain_dev.Core.Types.{TxInput, TxOutput, Transaction}
use earthion_blockchain_dev.Core.Platform.{Platform}
use earthion_blockchain_dev.Core.Fee.{
  FeeCalculator, set_fee_rate, min_fee_rate, max_fee_rate, get_fee_rate, skip_inputs,
  calculate_total_inputs, add_outputs, calculate_total_outputs, calculate_fee, is_fee_sufficient,
}

-- After SetFeeRate the rate lies between 1 and 1000, whatever was asked for, and it is the rate
-- that was asked for if that lies there.
pub set_fee_rate_bounds :
    (rate : ℤ) (fc : FeeCalculator)
    → let r = get_fee_rate (set_fee_rate rate fc) in
      (min_fee_rate ≤ℤ r)
      × (r ≤ℤ max_fee_rate)
      × (min_fee_rate ≤ℤ rate → rate ≤ℤ max_fee_rate → r ≡ rate)
unfolding set_fee_rate get_fee_rate
set_fee_rate_bounds (pos n) fc = ground arith
set_fee_rate_bounds (negsuc n) fc = ground arith

skip_inputs-eq : (is : List TxInput) (total : ℤ) → skip_inputs is total ≡ total
unfolding skip_inputs
skip_inputs-eq [] total = refl
skip_inputs-eq (i ∷ is) total = ground (arith, skip_inputs-eq is total)

-- The sum of the values of outputs whose values are not negative, as a number.
abbrev pub value_sum : List TxOutput → ℕ
value_sum [] = 0
value_sum (o ∷ os) = pos_part o.value + value_sum os

add_outputs-eq :
    (os : List TxOutput) (n : ℕ)
    → All (λ o. pos 0 ≤ℤ o.value) os
    → suc (n + value_sum os) ≤ 2 ^ 63
    → add_outputs os (pos n) ≡ pos (n + value_sum os)
unfolding add_outputs
add_outputs-eq [] n h lt = ap pos (omega arith)
add_outputs-eq (o ∷ os) n h lt =
    rw (add_value n o.value h.0 (omega arith))
      (add_outputs-eq os (n + pos_part o.value) h.1 (omega arith) ∙ ap pos (omega arith))
  where
    add_value :
        (m : ℕ) (v : ℤ)
        → pos 0 ≤ℤ v
        → suc (m + pos_part v) ≤ 2 ^ 63
        → add64 (pos m) v ≡ pos (m + pos_part v)
    add_value m (pos k) h' fits = add64-pos m k fits
    add_value m (negsuc k) h' fits = absurd (omega arith)

-- For outputs of positive values whose sum fits, and a size and rate whose product fits,
-- IsFeeSufficient refuses every transaction: it counts the inputs as worth nothing.
pub is_fee_sufficient_never :
    (p : Platform) (tx : Transaction) (rate : ℕ)
    → All (λ o. pos 0 ≤ℤ o.value) tx.outputs
    → 0 < value_sum tx.outputs
    → value_sum tx.outputs < 2 ^ 63
    → length (p.encode_tx tx) * rate < 2 ^ 63
    → is_fee_sufficient p (record { fee_rate = pos rate }) tx ≡ false
unfolding is_fee_sufficient calculate_total_inputs calculate_total_outputs calculate_fee sub64 mul64
is_fee_sufficient_never p tx rate h positive fits size =
    rw (skip_inputs-eq tx.inputs (pos 0), add_outputs-eq tx.outputs 0 h (omega arith))
      (ground arith)
