-- ===== src/Core/Transaction.antt =====
-- core/transaction.go: identifiers, signing, verification, coinbases. Making a payment needs the
-- chain, and stands in Core/Payment.
pub mod Verify
use earthion_blockchain_dev.Base.{
  ℕ, List, [], ◌∷◌, ◌++◌, Option, none, some, Bool, true, false, not, ◌&&◌, ◌||◌, Bytes, length,
  ◌==◌, if◌then◌else◌,
}
use earthion_blockchain_dev.Base.Int.{ℤ, pos, minus_one, eqb_ℤ}
use earthion_blockchain_dev.Crypto.Hash.{hash, double_hash}
use earthion_blockchain_dev.Core.Types.{TxInput, TxOutput, Transaction}
use earthion_blockchain_dev.Core.Platform.{Platform}
use earthion_blockchain_dev.Core.Utils.{int_to_hex}

-- `len(b) == 0`
abbrev pub is_empty {ℓ} : {A : Type ℓ} → List A → Bool
is_empty [] = true
is_empty (x ∷ xs) = false

-- `IsCoinbase`: one input, with index -1.
unfoldable pub is_coinbase : Transaction → Bool
is_coinbase tx = elim tx.inputs [
  | [] ↦ false
  | i ∷ [] ↦ eqb_ℤ i.out_index minus_one
  | i ∷ j ∷ r ↦ false
]

-- The outputs as `GetSignData` appends them.
pub output_data : List TxOutput → Bytes
output_data [] = []
output_data (o ∷ os) = int_to_hex o.value ++ o.pub_key ++ output_data os

module _ (p : Platform) where
  -- `SetID`: `nonce` is the eight random bytes.
  unfoldable pub set_id : Bytes → Transaction → Transaction
  set_id nonce tx = record tx { id = double_hash p.digest (p.encode_tx tx ++ nonce) }

  -- `SetUniqueID`
  unfoldable pub set_unique_id : ℤ → Bytes → Transaction → Transaction
  set_unique_id block_index prev_block_hash tx = record tx {
    id = double_hash p.digest (p.encode_tx tx ++ int_to_hex block_index ++ prev_block_hash);
  }

  -- `SetIDWithIndex`
  unfoldable pub set_id_with_index : ℤ → Transaction → Transaction
  set_id_with_index block_index tx = record tx {
    id = double_hash p.digest (p.encode_tx tx ++ int_to_hex block_index);
  }

  -- `CoinbaseTx`
  unfoldable pub coinbase_tx : Bytes → ℤ → ℤ → Bytes → Transaction
  unfolding set_unique_id
  coinbase_tx pub_key_hash amount block_index prev_block_hash =
      set_unique_id block_index prev_block_hash (record {
        id = [];
        inputs =
            record { txid = []; out_index = minus_one; signature = []; pub_key = pub_key_hash }
            ∷ [];
        outputs = record { value = amount; pub_key = pub_key_hash } ∷ [];
      })

  -- `GetSignData`
  unfoldable pub get_sign_data : Transaction → Bytes
  unfolding output_data
  get_sign_data tx = hash p.digest (tx.id ++ output_data tx.outputs)

  -- `wallet.VerifySignature`
  unfoldable pub verify_signature : Bytes → Bytes → Bytes → Bool
  verify_signature pub_key message signature =
      not (is_empty signature || is_empty pub_key)
      && p.parse_pub_key pub_key
      && p.parse_signature signature
      && p.ecdsa_verify pub_key message signature

  -- The loop of `Verify` over the inputs.
  pub verify_inputs : Bytes → List TxInput → Bool
  unfolding verify_signature
  verify_inputs message [] = true
  verify_inputs message (i ∷ is) =
      if is_empty i.signature
      then false
      else if is_empty i.pub_key
      then false
      else if not (verify_signature i.pub_key message i.signature)
      then false
      else verify_inputs message is

  -- `Verify`
  unfoldable pub verify : Transaction → Bool
  unfolding verify_inputs is_coinbase
  verify tx =
      if is_empty tx.inputs
      then false
      else if is_coinbase tx
      then true
      else verify_inputs (get_sign_data tx) tx.inputs
