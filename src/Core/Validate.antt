-- ===== src/Core/Validate.antt =====
-- core/blockchain.go, Validate: the integrity check of a chain. A log line itself is not modelled,
-- but its slices `h[:8]` are: they panic on a hash shorter than eight bytes (a slice is its
-- elements; spare capacity behind them is not modelled).
pub mod Spending
pub mod Sound
pub mod Total
use earthion_blockchain_dev.Base.{
  ℕ, List, [], ◌∷◌, ◌++◌, Option, none, some, Bool, true, false, not, ◌&&◌, Bytes, bytes_equal,
  length, leb, if◌then◌else◌,
}
use earthion_blockchain_dev.Base.Int.{ℤ, pos, minus_one, eqb_ℤ}
use earthion_blockchain_dev.Base.Format.{outpoint_key}
use earthion_blockchain_dev.Base.Map.{Map, lookup, insert}
use earthion_blockchain_dev.Base.Outcome.{Outcome, returns, panics}
use earthion_blockchain_dev.Crypto.Merkle.{new_merkle_tree, root_hash}
use earthion_blockchain_dev.Core.Types.{TxInput, Transaction, Block}
use earthion_blockchain_dev.Core.Platform.{Platform}
use earthion_blockchain_dev.Core.Pow.{validate_pow}
use earthion_blockchain_dev.Core.Block.{tx_hashes}
use earthion_blockchain_dev.Core.Transaction.{is_coinbase, is_empty, verify}

-- A step of the check: it goes on with a value, returns false, or panics.
pub data Check {ℓ} (A : Type ℓ) : Type ℓ where
  go_on : A → Check A
  reject : Check A
  fault : Check A

infixl 5 ◌>>=◌ ◌>>◌
abbrev pub ◌>>=◌ {ℓ κ} : {A : Type ℓ} {B : Type κ} → Check A → (A → Check B) → Check B
go_on a >>= f = f a
reject >>= f = reject
fault >>= f = fault

abbrev pub ◌>>◌ {ℓ} : {B : Type ℓ} → Check (Unit {0}) → Check B → Check B
m >> k = m >>= λ _. k

abbrev pub require : Bool → Check (Unit {0})
require true = go_on tt
require false = reject

-- `h[:8]` in a log line, for each of the hashes, before `return false`.
abbrev pub logs : List Bytes → Check (Unit {0})
logs [] = reject
logs (h ∷ hs) = if leb 8 (length h) then logs hs else fault

abbrev pub require_logging : Bool → List Bytes → Check (Unit {0})
require_logging true hs = go_on tt
require_logging false hs = logs hs

-- `m[key]` of a map[string]bool.
abbrev pub contains : Bytes → Map Bool → Bool
contains k m = elim (lookup k m) [ none ↦ false | some v ↦ v ]

-- The loop over the inputs of a transaction: `seen` is its own map, `spent` the chain's.
pub check_inputs : List TxInput → Map Bool → Map Bool → Check (Map Bool)
check_inputs [] seen spent = go_on spent
check_inputs (i ∷ is) seen spent = elim (eqb_ℤ i.out_index minus_one) [
  | true ↦ check_inputs is seen spent
  | false ↦ elim (contains (outpoint_key i.txid i.out_index) seen) [
    | true ↦ reject
    | false ↦ elim (contains (outpoint_key i.txid i.out_index) spent) [
      | true ↦ reject
      | false ↦
          check_inputs is (insert (outpoint_key i.txid i.out_index) true seen)
            (insert (outpoint_key i.txid i.out_index) true spent)
    ]
  ]
]

-- `bytes.Equal(block.MerkleRoot, merkleTree.RootHash())`
unfoldable pub merkle_root_matches : Platform → Block → Bool
merkle_root_matches p b =
    bytes_equal b.merkle_root (root_hash (new_merkle_tree p.digest (tx_hashes b.transactions)))

module _ (p : Platform) where
  unfoldable pub check_tx : Transaction → Map Bool → Check (Map Bool)
  unfolding check_inputs
  check_tx tx spent =
      if is_coinbase tx
      then go_on spent
      else (do spent' ← check_inputs tx.inputs [] spent; require (verify p tx); go_on spent')

  unfoldable pub check_txs : List Transaction → Map Bool → Check (Map Bool)
  unfolding check_tx
  check_txs [] spent = go_on spent
  check_txs (tx ∷ txs) spent = do spent' ← check_tx tx spent; check_txs txs spent'

  -- One round of the loop over the blocks.
  unfoldable pub check_block : Block → Block → Map Bool → Check (Map Bool)
  unfolding check_txs merkle_root_matches
  check_block prev b spent = do
    require_logging (bytes_equal b.prev_hash prev.hash) (b.prev_hash ∷ prev.hash ∷ [])
    require_logging (validate_pow p b) (b.hash ∷ [])
    require (merkle_root_matches p b)
    check_txs b.transactions spent

  unfoldable pub check_blocks : Block → List Block → Map Bool → Check (Map Bool)
  unfolding check_block
  check_blocks prev [] spent = go_on spent
  check_blocks prev (b ∷ bs) spent = do spent' ← check_block prev b spent; check_blocks b bs spent'

  -- `Validate`
  unfoldable pub validate : List Block → Outcome Bool
  unfolding check_blocks
  validate [] = returns false
  validate (genesis ∷ bs) = elim (is_empty genesis.prev_hash) [
    | false ↦ returns false
    | true ↦ elim (check_blocks genesis bs []) [
      | go_on spent ↦ returns true
      | reject ↦ returns false
      | fault ↦ panics
    ]
  ]
