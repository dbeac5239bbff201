-- ===== src/Server/Refusal.antt =====
-- POST /api/transaction: no payment comes out of it.
use earthion_blockchain_dev.Base.{
  Option, none, some, false, Bytes, length, ◌==◌, ◌≡◌, refl, arith, Bool-cases, Option-cases, inl,
  inr,
}
use earthion_blockchain_dev.Base.Int.{ℤ, pos, leb_ℤ, ltb_ℤ, ◌<ℤ◌}
use earthion_blockchain_dev.Base.Format.{hex_decode}
use earthion_blockchain_dev.Base.Outcome.{returns}
use earthion_blockchain_dev.Core.Platform.{Platform}
use earthion_blockchain_dev.Core.Utxo.{get_balance}
use earthion_blockchain_dev.Core.Payment.{insufficient_balance, no_valid_utxos, new_transaction}
use earthion_blockchain_dev.Core.Payment.Unspendable.{new_transaction_never_pays}
use earthion_blockchain_dev.Wallet.{get_raw_address}
use earthion_blockchain_dev.Server.Node.{
  Node, Env, PaymentRequest, ApiError, invalid_request_body, invalid_to_length,
  amount_must_be_positive, invalid_to_address, payment_failed, failure, status_bad_request,
}
use earthion_blockchain_dev.Server.Handlers.{handle_create_transaction, answer_payment}

pub leb_ℤ-false : (a b : ℤ) → leb_ℤ a b ≡ false → b <ℤ a
leb_ℤ-false a b h = ground arith

module _ (p : Platform) (env : Env) where
  payment_refused :
      (n : Node) (amount : ℤ) (to : Bytes)
      → pos 0 <ℤ amount
      → (e : ApiError) × (answer_payment p env
            (new_transaction p env.visit env.visit_again env.nonce n.wallet to amount
              n.chain.blocks)
            n
          ≡ returns (n, failure status_bad_request e))
  payment_refused n amount to positive =
      let never =
        new_transaction_never_pays p env.visit env.visit_again env.nonce n.wallet to amount
          n.chain.blocks positive in
      elim (Bool-cases
        (ltb_ℤ (get_balance env.visit (get_raw_address p n.wallet) n.chain.blocks) amount)) [
          | inl poor ↦ (payment_failed insufficient_balance, rw (never, poor) refl)
          | inr rich ↦ (payment_failed no_valid_utxos, rw (never, rich) refl)
        ]

  -- POST /api/transaction never makes a payment: whatever the body of the request, the node stays
  -- as it is and the answer is 400.
  pub handle_create_transaction_refuses :
      (body : Option PaymentRequest) (n : Node)
      → (e : ApiError) × (handle_create_transaction p env body n
          ≡ returns (n, failure status_bad_request e))
  unfolding handle_create_transaction
  handle_create_transaction_refuses none n = (invalid_request_body, refl)
  handle_create_transaction_refuses (some req) n = elim (Bool-cases (length req.to == 40)) [
    | inr short ↦ (invalid_to_length, rw (short, handle_create_transaction) refl)
    | inl long ↦ elim (Bool-cases (leb_ℤ req.amount (pos 0))) [
      | inl negative ↦
          (amount_must_be_positive, rw (long, negative, handle_create_transaction) refl)
      | inr positive ↦ elim (Option-cases (hex_decode req.to)) [
        | inl no_hex ↦
            (invalid_to_address, rw (long, positive, no_hex, handle_create_transaction) refl)
        | inr (to, hex) ↦
            let (e, failed) =
              payment_refused n req.amount to (leb_ℤ-false req.amount (pos 0) positive) in
            (e, rw (long, positive, hex, handle_create_transaction) failed)
      ]
    ]
  ]
