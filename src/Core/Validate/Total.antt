-- ===== src/Core/Validate/Total.antt =====
-- When Validate returns at all: its log lines slice the hashes of a bad block.
use earthion_blockchain_dev.Base.{
  ◌≤◌, List, [], ◌∷◌, Bool, true, false, Bytes, length, ◌≡◌, ◌≢◌, inl, inr, refl, arith, All,
  Bool-cases,
}
use earthion_blockchain_dev.Base.{bytes_equal}
use earthion_blockchain_dev.Core.Pow.{validate_pow}
use earthion_blockchain_dev.Base.Format.{outpoint_key}
use earthion_blockchain_dev.Base.Map.{Map, insert}
use earthion_blockchain_dev.Base.Outcome.{returns, panics}
use earthion_blockchain_dev.Core.Types.{TxInput, Transaction, Block}
use earthion_blockchain_dev.Core.Platform.{Platform}
use earthion_blockchain_dev.Core.Transaction.{is_coinbase, is_empty, verify}
use earthion_blockchain_dev.Core.Validate.{
  Check, go_on, reject, fault, ◌>>=◌, require, logs, require_logging, check_inputs, check_tx,
  check_txs, check_block, check_blocks, merkle_root_matches, validate,
}

>>=-no_fault {ℓ κ} :
    {A : Type ℓ} {B : Type κ} (m : Check A) (f : A → Check B)
    → m ≢ fault
    → ((a : A) → f a ≢ fault)
    → (m >>= f) ≢ fault
>>=-no_fault (go_on a) f h k = k a
>>=-no_fault reject f h k = λ e. cc e
>>=-no_fault fault f h k = absurd (h refl)

require_no_fault : (c : Bool) → require c ≢ fault
require_no_fault true = λ e. cc e
require_no_fault false = λ e. cc e

logs_no_fault : (hs : List Bytes) → All (λ h. 8 ≤ length h) hs → logs hs ≢ fault
logs_no_fault [] long = λ e. cc e
logs_no_fault (h ∷ hs) long = λ e. logs_no_fault hs long.1 (ground arith)

require_logging_no_fault :
    (c : Bool) (hs : List Bytes) → All (λ h. 8 ≤ length h) hs → require_logging c hs ≢ fault
require_logging_no_fault true hs long = λ e. cc e
require_logging_no_fault false hs long = logs_no_fault hs long

check_inputs_no_fault :
    (is : List TxInput) (seen spent : Map Bool) → check_inputs is seen spent ≢ fault
unfolding check_inputs
check_inputs_no_fault [] seen spent = λ e. cc e
check_inputs_no_fault (i ∷ is) seen spent =
    let k = outpoint_key i.txid i.out_index in
    ground (
      arith,
      check_inputs_no_fault is seen spent,
      check_inputs_no_fault is (insert k true seen) (insert k true spent),
    )

-- The hashes that a log line may slice have eight bytes.
abbrev pub HasHashes : Block → Type 0
HasHashes b = (8 ≤ length b.prev_hash) × (8 ≤ length b.hash)

module _ (p : Platform) where
  check_tx_no_fault : (tx : Transaction) (spent : Map Bool) → check_tx p tx spent ≢ fault
  unfolding check_tx
  check_tx_no_fault tx spent = elim (Bool-cases (is_coinbase tx)) [
    | inl coinbase ↦ rw coinbase (λ e. cc e)
    | inr payment ↦ rw payment (
        >>=-no_fault (check_inputs tx.inputs [] spent) _ (check_inputs_no_fault tx.inputs [] spent)
          (λ s. >>=-no_fault (require (verify p tx)) _ (require_no_fault _) (λ _ e. cc e)))
  ]

  check_txs_no_fault : (txs : List Transaction) (spent : Map Bool) → check_txs p txs spent ≢ fault
  unfolding check_txs
  check_txs_no_fault [] spent = λ e. cc e
  check_txs_no_fault (tx ∷ txs) spent =
      >>=-no_fault (check_tx p tx spent) (check_txs p txs) (check_tx_no_fault tx spent)
        (check_txs_no_fault txs)

  check_block_no_fault :
      (prev b : Block) (spent : Map Bool)
      → HasHashes b
      → 8 ≤ length prev.hash
      → check_block p prev b spent ≢ fault
  unfolding check_block
  check_block_no_fault prev b spent long before =
      >>=-no_fault _ _
        (require_logging_no_fault (bytes_equal b.prev_hash prev.hash) (b.prev_hash ∷ prev.hash ∷ [])
          (long.0, (before, tt)))
        (λ _.
          >>=-no_fault _ _ (require_logging_no_fault (validate_pow p b) (b.hash ∷ []) (long.1, tt))
            (λ _.
              >>=-no_fault (require (merkle_root_matches p b))
                (λ _. check_txs p b.transactions spent) (require_no_fault _)
                (λ _. check_txs_no_fault b.transactions spent)))

  check_blocks_no_fault :
      (prev : Block) (bs : List Block) (spent : Map Bool)
      → 8 ≤ length prev.hash
      → All HasHashes bs
      → check_blocks p prev bs spent ≢ fault
  unfolding check_blocks
  check_blocks_no_fault prev [] spent before long = λ e. cc e
  check_blocks_no_fault prev (b ∷ bs) spent before long =
      >>=-no_fault (check_block p prev b spent) (check_blocks p b bs)
        (check_block_no_fault prev b spent long.0 before)
        (λ s. check_blocks_no_fault b bs s long.0.1 long.1)

  -- Validate returns an answer on every chain whose genesis hash, and whose later hashes and
  -- previous hashes, have at least eight bytes: no log line panics.
  pub validate_total :
      (genesis : Block) (bs : List Block)
      → 8 ≤ length genesis.hash
      → All HasHashes bs
      → (valid : Bool) × (validate p (genesis ∷ bs) ≡ returns valid)
  unfolding validate
  validate_total genesis bs before long = elim (Bool-cases (is_empty genesis.prev_hash)) [
    | inr some_bytes ↦ (false, rw (some_bytes, validate) refl)
    | inl empty ↦
        let (valid, e) =
          answer (check_blocks p genesis bs []) (check_blocks_no_fault genesis bs [] before long) in
        (valid, rw (empty, validate) e)
  ]
    where
      answer :
          (c : Check (Map Bool))
          → c ≢ fault
          → (valid : Bool) × ((elim c [
            | go_on spent ↦ returns true
            | reject ↦ returns false
            | fault ↦ panics
          ])
              ≡ returns valid)
      answer (go_on after) h = (true, refl)
      answer reject h = (false, refl)
      answer fault h = absurd (h refl)
