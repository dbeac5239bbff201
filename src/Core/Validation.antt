-- ===== src/Core/Validation.antt =====
-- core/validation.go: the strict checks of transactions, blocks and chains. A nil error is `none`.
-- An error has its code and its transaction ID; the texts of the messages are not modelled, but the
-- slices of hashes in one of them are: they can panic.
pub mod Payments
pub mod Blocks
pub mod Outputs
use earthion_blockchain_dev.Base.{
  ℕ, ◌+◌, List, [], ◌∷◌, Option, none, some, Bool, true, false, not, ◌&&◌, ◌||◌, Bytes, bytes_equal,
  length, ltb, leb, ◌==◌, if◌then◌else◌, is_some,
}
use earthion_blockchain_dev.Base.Int.{ℤ, pos, minus_one, max_int64, eqb_ℤ, ltb_ℤ, leb_ℤ, add64}
use earthion_blockchain_dev.Base.Format.{outpoint_key}
use earthion_blockchain_dev.Base.Map.{Map, lookup, insert}
use earthion_blockchain_dev.Base.Outcome.{Outcome, returns, panics}
use earthion_blockchain_dev.Core.Types.{TxInput, TxOutput, Transaction, Block}
use earthion_blockchain_dev.Core.Platform.{Platform}
use earthion_blockchain_dev.Core.Transaction.{is_coinbase, is_empty, verify}
use earthion_blockchain_dev.Core.Pow.{min_difficulty, max_difficulty, validate_pow}
use earthion_blockchain_dev.Core.Validate.{merkle_root_matches}
use earthion_blockchain_dev.Core.Utxo.{utxo_index}

abbrev pub max_outputs_per_transaction : ℕ
max_outputs_per_transaction = 10000

abbrev pub max_inputs_per_transaction : ℕ
max_inputs_per_transaction = 10000

abbrev pub max_value : ℤ
max_value = max_int64

abbrev pub block_max_time_in_future : ℤ
block_max_time_in_future = pos 120

abbrev pub max_block_size : ℕ
max_block_size = 1000000

-- The validation codes.
pub data Code : Type 0 where
  err_nil_tx : Code
  err_empty_id : Code
  err_no_inputs : Code
  err_no_outputs : Code
  err_invalid_in : Code
  err_neg_output : Code
  err_overflow : Code
  err_sig_verify : Code
  err_tx_size : Code
  err_chain_tip : Code
  err_time : Code
  err_pow : Code
  err_merkle : Code
  err_orphan : Code
  err_block_size : Code

-- `ValidationError`; no transaction ID is the empty one.
pub record ValidationError : Type 0 where
  pub code : Code
  pub txid : Bytes

abbrev pub fail : Code → Bytes → Option ValidationError
fail c id = some (record { code = c; txid = id })

-- `if err := first; err != nil { return err }`, then the rest.
infixr 4 ◌and_then◌
abbrev pub ◌and_then◌ : Option ValidationError → Option ValidationError → Option ValidationError
none and_then r = r
(some e) and_then r = some e

-- The loop of `ValidateTransaction` over the inputs.
pub validate_inputs : Bytes → Bool → List TxInput → Option ValidationError
validate_inputs id coinbase [] = none
validate_inputs id coinbase (i ∷ is) =
    if eqb_ℤ i.out_index minus_one && coinbase
    then validate_inputs id coinbase is
    else if is_empty i.txid
    then fail err_invalid_in id
    else if ltb_ℤ i.out_index minus_one
    then fail err_invalid_in id
    else validate_inputs id coinbase is

-- The loop over the outputs; `total` is the int64 `totalOut`.
pub validate_outputs : Bytes → List TxOutput → ℤ → Option ValidationError
validate_outputs id [] total = none
validate_outputs id (o ∷ os) total =
    if leb_ℤ o.value (pos 0)
    then fail err_neg_output id
    else if ltb_ℤ max_value o.value
    then fail err_overflow id
    else if is_empty o.pub_key
    then fail err_neg_output id
    else if ltb_ℤ max_value (add64 total o.value)
    then fail err_overflow id
    else validate_outputs id os (add64 total o.value)

-- The loop of `ValidateTransactionForMempool`.
pub validate_spent : Bytes → Map TxOutput → List TxInput → Option ValidationError
validate_spent id utxos [] = none
validate_spent id utxos (i ∷ is) =
    if eqb_ℤ i.out_index minus_one
    then validate_spent id utxos is
    else if is_some (lookup (outpoint_key i.txid i.out_index) utxos)
    then validate_spent id utxos is
    else fail err_orphan id

module _ (p : Platform) where
  -- `ValidateTransaction`; `none` is the nil transaction.
  unfoldable pub validate_transaction : Option Transaction → Bool → Option ValidationError
  unfolding validate_inputs validate_outputs
  validate_transaction none coinbase = fail err_nil_tx []
  validate_transaction (some tx) coinbase =
      if is_empty tx.id
      then fail err_empty_id []
      else if is_empty tx.inputs
      then fail err_no_inputs tx.id
      else if ltb max_inputs_per_transaction (length tx.inputs)
      then fail err_overflow tx.id
      else if is_empty tx.outputs
      then fail err_no_outputs tx.id
      else if ltb max_outputs_per_transaction (length tx.outputs)
      then fail err_overflow tx.id
      else (validate_inputs tx.id coinbase tx.inputs
          and_then validate_outputs tx.id tx.outputs (pos 0)
          and_then (if not coinbase && not (verify p tx) then fail err_sig_verify tx.id else none))

  -- `ValidateTransactionForMempool`, of a transaction that is not nil.
  unfoldable pub validate_transaction_for_mempool :
      Transaction → List Block → Option ValidationError
  unfolding validate_transaction validate_spent
  validate_transaction_for_mempool tx blocks =
      validate_transaction (some tx) (is_coinbase tx)
      and_then validate_spent tx.id (utxo_index blocks) tx.inputs

  -- The loop of `ValidateBlock` over the transactions.
  pub validate_txs : List Transaction → Option ValidationError
  unfolding validate_transaction
  validate_txs [] = none
  validate_txs (tx ∷ txs) = elim (validate_transaction (some tx) (is_coinbase tx)) [
    | some e ↦ fail e.code tx.id
    | none ↦ validate_txs txs
  ]

  -- The checks of `ValidateBlock` behind the transactions.
  unfoldable pub validate_rest : Block → List Transaction → Option ValidationError
  validate_rest b [] = fail err_chain_tip []
  validate_rest b (tx ∷ txs) =
      if not (is_coinbase tx)
      then fail err_chain_tip []
      else if ltb max_block_size (length (p.encode_block b))
      then fail err_chain_tip []
      else none

  -- The checks of `ValidateBlock` from the timestamp on, at Unix time `now`.
  unfoldable pub validate_content : ℤ → Block → Option ValidationError
  unfolding validate_txs validate_rest
  validate_content now b =
      if ltb_ℤ (add64 now block_max_time_in_future) b.timestamp
      then fail err_time []
      else if ltb_ℤ b.timestamp (pos 0)
      then fail err_time []
      else if b.difficulty == 0
      then fail err_chain_tip []
      else if ltb b.difficulty min_difficulty
      then fail err_chain_tip []
      else if ltb max_difficulty b.difficulty
      then fail err_chain_tip []
      else if not (validate_pow p b)
      then fail err_pow []
      else if not (merkle_root_matches p b)
      then fail err_merkle []
      else (validate_txs b.transactions and_then validate_rest b b.transactions)

  -- The check of the link: the message slices both hashes.
  unfoldable pub validate_link : Block → Option Block → Outcome (Option ValidationError)
  validate_link b none = returns none
  validate_link b (some prev) =
      if bytes_equal b.prev_hash prev.hash
      then returns none
      else if leb 8 (length prev.hash) && leb 8 (length b.prev_hash)
      then returns (fail err_chain_tip [])
      else panics

  -- `ValidateBlock`; `none` is a nil block.
  unfoldable pub validate_block : ℤ → Option Block → Option Block → Outcome (Option ValidationError)
  unfolding validate_content validate_link
  validate_block now none prev = returns (fail err_nil_tx [])
  validate_block now (some b) prev =
      if ltb_ℤ b.index (pos 0)
      then returns (fail err_chain_tip [])
      else elim (validate_link b prev) [
        | panics ↦ panics
        | returns (some e) ↦ returns (some e)
        | returns none ↦ returns (validate_content now b)
      ]

  -- The loop of `ValidateChain`.
  pub validate_blocks : ℤ → Block → List Block → Outcome (Option ValidationError)
  unfolding validate_block
  validate_blocks now prev [] = returns none
  validate_blocks now prev (b ∷ bs) = elim (validate_block now (some b) (some prev)) [
    | panics ↦ panics
    | returns (some e) ↦ returns (fail e.code [])
    | returns none ↦ validate_blocks now b bs
  ]

  -- `ValidateChain`; every block is checked at the same time `now`.
  unfoldable pub validate_chain : ℤ → List Block → Outcome (Option ValidationError)
  unfolding validate_blocks
  validate_chain now [] = returns (fail err_chain_tip [])
  validate_chain now (genesis ∷ bs) =
      if not (is_empty genesis.prev_hash)
      then returns (fail err_chain_tip [])
      else validate_blocks now genesis bs

-- The loops of `ValidateUTXO` over the entries: keys seen twice, then values.
pub duplicate_key : Map TxOutput → Map Bool → Option ValidationError
duplicate_key [] seen = none
duplicate_key ((k, o) ∷ utxos) seen = elim (lookup k seen) [
  | some true ↦ fail err_chain_tip []
  | _ ↦ duplicate_key utxos (insert k true seen)
]

pub negative_value : Map TxOutput → Option ValidationError
negative_value [] = none
negative_value ((k, o) ∷ utxos) =
    if leb_ℤ o.value (pos 0) then fail err_neg_output [] else negative_value utxos

-- `ValidateUTXO`; `visit` is the order in which the entries of the map are visited.
unfoldable pub validate_utxo : (Map TxOutput → Map TxOutput) → List Block → Option ValidationError
unfolding duplicate_key negative_value
validate_utxo visit blocks =
    duplicate_key (visit (utxo_index blocks)) [] and_then negative_value (visit (utxo_index blocks))
