-- ===== src/Core/Payment/Unspendable.antt =====
-- What NewTransaction and Sign do with the calls as they are written.
use earthion_blockchain_dev.Base.{
  List, [], ◌∷◌, none, false, Bytes, if◌then◌else◌, ◌≡◌, ◌≢◌, refl, arith, inl, inr, Option-cases,
}
use earthion_blockchain_dev.Base.Int.{ℤ, pos, ltb_ℤ, ◌<ℤ◌}
use earthion_blockchain_dev.Base.Scan.{sscanf_key_fails}
use earthion_blockchain_dev.Base.Map.{Map}
use earthion_blockchain_dev.Core.Types.{TxInput, TxOutput, Transaction, Block}
use earthion_blockchain_dev.Core.Platform.{Platform}
use earthion_blockchain_dev.Core.Transaction.{set_id, get_sign_data}
use earthion_blockchain_dev.Core.Utxo.{utxo_index, get_balance}
use earthion_blockchain_dev.Core.Payment.{
  insufficient_balance, no_valid_utxos, sign_inputs, sign, gather, finish_payment, new_transaction,
}
use earthion_blockchain_dev.Wallet.{Wallet, get_raw_address, sign_data}

module _ (p : Platform) where
  gather_none :
      (w : Wallet) (amount : ℤ) (utxos entries : Map TxOutput) (inputs : List TxInput) (total : ℤ)
      → gather p w amount utxos entries inputs total ≡ (inputs, total)
  unfolding gather
  gather_none w amount utxos [] inputs total = refl
  gather_none w amount utxos ((key, out) ∷ entries) inputs total =
      rw (gather, sscanf_key_fails key) (gather_none w amount utxos entries inputs total)

  -- NewTransaction never pays a positive amount: no key of the map is taken apart, and so it finds
  -- the balance insufficient or no output to spend.
  pub new_transaction_never_pays :
      (visit visit' : Map TxOutput → Map TxOutput) (nonce : Bytes) (w : Wallet) (to : Bytes)
      (amount : ℤ) (blocks : List Block)
      → pos 0 <ℤ amount
      → new_transaction p visit visit' nonce w to amount blocks ≡ (
          if ltb_ℤ (get_balance visit (get_raw_address p w) blocks) amount
          then insufficient_balance
          else no_valid_utxos)
  unfolding new_transaction finish_payment
  new_transaction_never_pays visit visit' nonce w to amount blocks h =
      rw (gather_none w amount (utxo_index blocks) (visit' (utxo_index blocks)) [] (pos 0))
        (ground arith)

  -- Sign fails on every transaction with inputs, as `btcec.PrivKeyFromBytes` never returns a nil
  -- public key, which Sign of a wallet takes for an error.
  pub sign_fails :
      ((k : Bytes) → (p.priv_key_from_bytes k).1 ≢ none)
      → (nonce : Bytes) (w : Wallet) (tx : Transaction) → tx.inputs ≢ []
      → (sign p nonce w tx).1 ≡ false
  unfolding sign set_id sign_data sign_inputs
  sign_fails public nonce w tx some_inputs =
      go tx.inputs (get_sign_data p (set_id p nonce tx)) some_inputs
    where
      no_signature : (message : Bytes) → sign_data p w message ≡ none
      no_signature message = elim (Option-cases (p.priv_key_from_bytes w.private_key_bytes).1) [
        | inl nil ↦ absurd (public w.private_key_bytes nil)
        | inr (key, e) ↦ rw (sign_data, e) refl
      ]

      go : (is : List TxInput) (message : Bytes) → is ≢ [] → (sign_inputs p w message is).1 ≡ false
      go [] message h = absurd (h refl)
      go (i ∷ is) message h = rw (sign_inputs, no_signature message) refl
