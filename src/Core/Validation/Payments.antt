-- ===== src/Core/Validation/Payments.antt =====
-- What ValidateTransaction and ValidateTransactionForMempool accept.
use earthion_blockchain_dev.Base.{
  ◌≤◌, List, [], ◌∷◌, Option, none, some, Bool, true, false, not, ◌&&◌, Bytes, length, ltb, is_some,
  if◌then◌else◌, ◌≡◌, ◌≢◌, ◌↔◌, ◌⊎◌, refl, arith, All,
}
use earthion_blockchain_dev.Base.Int.{
  ℤ, pos, minus_one, ltb_ℤ, ◌≤ℤ◌, ◌<ℤ◌, add64, wrap64, wrap64-IsInt64, IsInt64, ◌+ℤ◌,
}
use earthion_blockchain_dev.Base.Format.{outpoint_key}
use earthion_blockchain_dev.Base.Map.{Map, lookup}
use earthion_blockchain_dev.Core.Types.{TxInput, TxOutput, Transaction, Block}
use earthion_blockchain_dev.Core.Platform.{Platform}
use earthion_blockchain_dev.Core.Transaction.{is_coinbase, is_empty, verify}
use earthion_blockchain_dev.Core.Utxo.{utxo_index}
use earthion_blockchain_dev.Core.Validation.{
  ValidationError, err_sig_verify, fail, ◌and_then◌, validate_inputs, validate_outputs,
  validate_spent, validate_transaction, validate_transaction_for_mempool, max_value,
}

-- An input names a transaction, by an index of at least -1; the marker of a coinbase names none.
abbrev pub IsInput : Bool → TxInput → Type 0
IsInput coinbase i =
    ((i.out_index ≡ minus_one) × (coinbase ≡ true)) ⊎ ((i.txid ≢ []) × (minus_one ≤ℤ i.out_index))

-- An output has a positive value and an owner.
abbrev pub IsOutput : TxOutput → Type 0
IsOutput o = (pos 0 <ℤ o.value) × (o.pub_key ≢ [])

is_empty_iff {ℓ} : {A : Type ℓ} (xs : List A) → (is_empty xs ≡ false) ↔ (xs ≢ [])
is_empty_iff [] = (λ h e. cc h, λ h. absurd (h refl))
is_empty_iff (x ∷ xs) = (λ h e. cc e, λ h. refl)

validate_inputs_iff :
    (id : Bytes) (coinbase : Bool) (is : List TxInput)
    → (validate_inputs id coinbase is ≡ none) ↔ All (IsInput coinbase) is
unfolding validate_inputs
validate_inputs_iff id coinbase [] = (λ h. tt, λ h. refl)
validate_inputs_iff id coinbase (i ∷ is) =
    ground (arith, validate_inputs_iff id coinbase is, is_empty_iff i.txid)

-- The running total of an int64 never exceeds the largest int64.
add64_below : (a b : ℤ) → ltb_ℤ max_value (add64 a b) ≡ false
unfolding add64
add64_below a b = let h = wrap64-IsInt64 (a +ℤ b) in in_range (wrap64 (a +ℤ b)) h
  where
    in_range : (c : ℤ) → IsInt64 c → ltb_ℤ max_value c ≡ false
    in_range (pos n) h = ground arith
    in_range c h = ground arith

validate_outputs_iff :
    (id : Bytes) (os : List TxOutput) (total : ℤ)
    → All (λ o. IsInt64 o.value) os
    → (validate_outputs id os total ≡ none) ↔ All IsOutput os
unfolding validate_outputs
validate_outputs_iff id [] total h = (λ e. tt, λ e. refl)
validate_outputs_iff id (o ∷ os) total h = ground (
  arith,
  validate_outputs_iff id os (add64 total o.value) h.1,
  is_empty_iff o.pub_key,
  add64_below total o.value,
)

and_then-none : (m k : Option ValidationError) → ((m and_then k) ≡ none) ↔ ((m ≡ none) × (k ≡ none))
and_then-none none k = (λ h. (refl, h), λ h. h.1)
and_then-none (some e) k = (λ h. absurd (cc h), λ h. absurd (cc h.0))

module _ (p : Platform) where
  -- A transaction that is well formed: an ID, at most 10000 inputs and outputs, and a signature
  -- unless it is a coinbase.
  pub record IsWellFormed (tx : Transaction) (coinbase : Bool) : Type 0 where
    pub identified : tx.id ≢ []
    pub some_inputs : tx.inputs ≢ []
    pub few_inputs : length tx.inputs ≤ 10000
    pub some_outputs : tx.outputs ≢ []
    pub few_outputs : length tx.outputs ≤ 10000
    pub inputs_good : All (IsInput coinbase) tx.inputs
    pub outputs_good : All IsOutput tx.outputs
    pub signed : (coinbase ≡ true) ⊎ (verify p tx ≡ true)

  signature_iff :
      (tx : Transaction) (coinbase : Bool)
      → ((if not coinbase && not (verify p tx) then fail err_sig_verify tx.id else none) ≡ none)
        ↔ ((coinbase ≡ true) ⊎ (verify p tx ≡ true))
  signature_iff tx coinbase = ground arith

  loops_iff :
      (tx : Transaction) (coinbase : Bool)
      → All (λ o. IsInt64 o.value) tx.outputs
      → ((validate_inputs tx.id coinbase tx.inputs
            and_then validate_outputs tx.id tx.outputs (pos 0)
            and_then (if not coinbase && not (verify p tx)
                then fail err_sig_verify tx.id
                else none))
          ≡ none)
        ↔ (All (IsInput coinbase) tx.inputs
            × All IsOutput tx.outputs
            × ((coinbase ≡ true) ⊎ (verify p tx ≡ true)))
  loops_iff tx coinbase h = (
    λ e.
        let (a, r) = (and_then-none _ _).0 e in
        let (b, c) = (and_then-none _ _).0 r in
        (
          (validate_inputs_iff tx.id coinbase tx.inputs).0 a,
          (validate_outputs_iff tx.id tx.outputs (pos 0) h).0 b,
          (signature_iff tx coinbase).0 c,
        ),
    λ (a, b, c). (and_then-none _ _).1 (
      (validate_inputs_iff tx.id coinbase tx.inputs).1 a,
      (and_then-none _ _).1
          ((validate_outputs_iff tx.id tx.outputs (pos 0) h).1 b, (signature_iff tx coinbase).1 c),
    ),
  )

  -- ValidateTransaction accepts a transaction with int64 values exactly if it is well formed. The
  -- sum of its outputs is not bounded: the test for an overflow compares an int64 to the largest one
  -- and never fails.
  pub validate_transaction_iff :
      (tx : Transaction) (coinbase : Bool)
      → All (λ o. IsInt64 o.value) tx.outputs
      → (validate_transaction p (some tx) coinbase ≡ none) ↔ IsWellFormed tx coinbase
  unfolding validate_transaction
  validate_transaction_iff tx coinbase h = (
    λ e. record {
      identified = ground (arith, is_empty_iff tx.id);
      some_inputs = ground (arith, is_empty_iff tx.inputs);
      few_inputs = ground arith;
      some_outputs = ground (arith, is_empty_iff tx.outputs);
      few_outputs = ground arith;
      inputs_good = ground (arith, loops_iff tx coinbase h);
      outputs_good = ground (arith, loops_iff tx coinbase h);
      signed = ground (arith, loops_iff tx coinbase h);
    },
    λ g.
        let few_in : ltb 10000 (length tx.inputs) ≡ false =
          (let h = g.few_inputs in ground arith) in
        let few_out : ltb 10000 (length tx.outputs) ≡ false =
          (let h = g.few_outputs in ground arith) in
        rw
          (
            (is_empty_iff tx.id).1 g.identified,
            (is_empty_iff tx.inputs).1 g.some_inputs,
            (is_empty_iff tx.outputs).1 g.some_outputs,
            few_in,
            few_out,
          )
          ((loops_iff tx coinbase h).1 (g.inputs_good, g.outputs_good, g.signed)),
  )

-- An input names an unspent output, or has the index -1 that marks a coinbase, whatever else it
-- holds and whatever transaction it stands in.
abbrev pub IsUnspentOrMarker : Map TxOutput → TxInput → Type 0
IsUnspentOrMarker utxos i =
    (i.out_index ≡ minus_one) ⊎ (is_some (lookup (outpoint_key i.txid i.out_index) utxos) ≡ true)

validate_spent_iff :
    (id : Bytes) (utxos : Map TxOutput) (is : List TxInput)
    → (validate_spent id utxos is ≡ none) ↔ All (IsUnspentOrMarker utxos) is
unfolding validate_spent
validate_spent_iff id utxos [] = (λ h. tt, λ h. refl)
validate_spent_iff id utxos (i ∷ is) = ground (arith, validate_spent_iff id utxos is)

-- The check for the mempool accepts a transaction with int64 values exactly if it is well formed
-- and each of its inputs either names an unspent output of the chain or has the index -1, which
-- exempts the input, in a coinbase or in any other transaction, whatever the chain.
pub validate_transaction_for_mempool_iff :
    (p : Platform) (tx : Transaction) (blocks : List Block)
    → All (λ o. IsInt64 o.value) tx.outputs
    → (validate_transaction_for_mempool p tx blocks ≡ none)
      ↔ (IsWellFormed p tx (is_coinbase tx) × All (IsUnspentOrMarker (utxo_index blocks)) tx.inputs)
unfolding validate_transaction_for_mempool
validate_transaction_for_mempool_iff p tx blocks h = (
  λ e.
      let (a, b) = (and_then-none _ _).0 e in
      (
        (validate_transaction_iff p tx (is_coinbase tx) h).0 a,
        (validate_spent_iff tx.id (utxo_index blocks) tx.inputs).0 b,
      ),
  λ (a, b). (and_then-none _ _).1 (
    (validate_transaction_iff p tx (is_coinbase tx) h).1 a,
    (validate_spent_iff tx.id (utxo_index blocks) tx.inputs).1 b,
  ),
)
