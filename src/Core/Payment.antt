-- ===== src/Core/Payment.antt =====
-- core/transaction.go, Sign and NewTransaction: a payment from the unspent outputs of a wallet.
pub mod Unspendable
use earthion_blockchain_dev.Base.{
  ℕ, List, [], ◌∷◌, ◌++◌, Option, none, some, Bool, true, false, not, ◌&&◌, Bytes, bytes_equal,
  if◌then◌else◌, is_some,
}
use earthion_blockchain_dev.Base.Int.{ℤ, pos, eqb_ℤ, ltb_ℤ, leb_ℤ, add64, sub64}
use earthion_blockchain_dev.Base.Format.{hex_decode_prefix}
use earthion_blockchain_dev.Base.Scan.{sscanf_key}
use earthion_blockchain_dev.Base.Map.{Map, lookup}
use earthion_blockchain_dev.Core.Types.{TxInput, TxOutput, Transaction, Block}
use earthion_blockchain_dev.Core.Platform.{Platform}
use earthion_blockchain_dev.Core.Transaction.{is_empty, set_id, get_sign_data}
use earthion_blockchain_dev.Core.Utxo.{utxo_index, get_balance}
use earthion_blockchain_dev.Core.Fee.{add_outputs}
use earthion_blockchain_dev.Wallet.{Wallet, get_raw_address, sign_data}

-- The results of `NewTransaction`: its four errors, or the transaction.
pub data Payment : Type 0 where
  insufficient_balance : Payment
  no_valid_utxos : Payment
  value_mismatch : Payment
  sign_failed : Payment
  paid : Transaction → Payment

-- The input that `NewTransaction` appends.
abbrev pub unsigned_input : Wallet → Bytes → ℤ → TxInput
unsigned_input w txid_hex out_idx = record {
  txid = hex_decode_prefix txid_hex;
  out_index = out_idx;
  signature = [];
  pub_key = w.public_key;
}

module _ (p : Platform) where
  -- The loop of `Sign`: the inputs after it, and whether all are signed.
  pub sign_inputs : Wallet → Bytes → List TxInput → List TxInput × Bool
  unfolding sign_data
  sign_inputs w message [] = ([], true)
  sign_inputs w message (i ∷ is) =
      let (js, ok) = sign_inputs w message is in
      elim (sign_data p w message) [
        | none ↦ (i ∷ is, false)
        | some sig ↦ (record i { signature = sig } ∷ js, ok)
      ]

  -- `Sign`: the transaction after it, and whether there is no error; `nonce` is the random bytes of
  -- SetID.
  unfoldable pub sign : Bytes → Wallet → Transaction → Transaction × Bool
  unfolding sign_inputs
  sign nonce w tx =
      let identified = set_id p nonce tx in
      let (inputs, ok) = sign_inputs w (get_sign_data p identified) identified.inputs in
      (record identified { inputs = inputs }, ok)

  -- The loop of `NewTransaction` over the entries, in the order in which the map is visited; a key
  -- is taken apart by `fmt.Sscanf(key, "%s:%d", …)`.
  pub gather : Wallet → ℤ → Map TxOutput → Map TxOutput → List TxInput → ℤ → List TxInput × ℤ
  gather w amount utxos [] inputs total = (inputs, total)
  gather w amount utxos ((key, out) ∷ entries) inputs total = elim (sscanf_key key) [
    | none ↦ gather w amount utxos entries inputs total
    | some (txid_hex, out_idx) ↦
        if not (bytes_equal out.pub_key (get_raw_address p w))
        then gather w amount utxos entries inputs total
        else if not (is_some (lookup key utxos))
        then gather w amount utxos entries inputs total
        else (let inputs' = inputs ++ unsigned_input w txid_hex out_idx ∷ [] in
            if leb_ℤ amount (add64 total out.value)
            then (inputs', add64 total out.value)
            else gather w amount utxos entries inputs' (add64 total out.value))
  ]

  -- The outputs: to the recipient, and the change.
  unfoldable pub payment_outputs : Wallet → Bytes → ℤ → ℤ → List TxOutput
  payment_outputs w to amount total =
      record { value = amount; pub_key = to }
      ∷ (if ltb_ℤ amount total
          then record { value = sub64 total amount; pub_key = get_raw_address p w } ∷ []
          else [])

  -- `NewTransaction` behind the loop.
  unfoldable pub finish_payment : Bytes → Wallet → Bytes → ℤ → List TxInput × ℤ → Payment
  unfolding payment_outputs sign
  finish_payment nonce w to amount (inputs, total) =
      let outputs = payment_outputs w to amount total in
      if is_empty inputs && ltb_ℤ (pos 0) amount
      then no_valid_utxos
      else if not (eqb_ℤ total (add_outputs outputs (pos 0)))
      then value_mismatch
      else (let (tx, ok) = sign nonce w (record { id = []; inputs = inputs; outputs = outputs }) in
          if ok then paid tx else sign_failed)

  -- `NewTransaction`; the map is visited in the order `visit` for the balance, and in the order
  -- `visit'` by the loop.
  unfoldable pub new_transaction :
      (Map TxOutput → Map TxOutput)
      → (Map TxOutput → Map TxOutput)
      → Bytes
      → Wallet
      → Bytes
      → ℤ
      → List Block
      → Payment
  unfolding gather finish_payment
  new_transaction visit visit' nonce w to amount blocks =
      if ltb_ℤ (get_balance visit (get_raw_address p w) blocks) amount
      then insufficient_balance
      else finish_payment nonce w to amount
          (gather w amount (utxo_index blocks) (visit' (utxo_index blocks)) [] (pos 0))
