-- ===== src/Core/Transaction/Verify.antt =====
-- What Verify checks, and what it does not read.
use earthion_blockchain_dev.Base.{
  List, [], ◌∷◌, map, true, false, Bytes, ◌≡◌, ◌≢◌, ◌↔◌, refl, arith, All,
}
use earthion_blockchain_dev.Base.Int.{ℤ}
use earthion_blockchain_dev.Core.Types.{TxInput, Transaction}
use earthion_blockchain_dev.Core.Platform.{Platform}
use earthion_blockchain_dev.Core.Transaction.{
  is_empty, is_coinbase, get_sign_data, verify_signature, verify_inputs, verify,
}

is_empty_ne {ℓ} : {A : Type ℓ} (xs : List A) → xs ≢ [] → is_empty xs ≡ false
is_empty_ne [] h = absurd (h refl)
is_empty_ne (x ∷ xs) h = refl

module _ (p : Platform) where
  -- An input carries a key and a signature, and the signature is accepted for the message.
  pub record IsSigned (message : Bytes) (i : TxInput) : Type 0 where
    pub key_present : i.pub_key ≢ []
    pub signature_present : i.signature ≢ []
    pub key_parses : p.parse_pub_key i.pub_key ≡ true
    pub signature_parses : p.parse_signature i.signature ≡ true
    pub accepted : p.ecdsa_verify i.pub_key message i.signature ≡ true

  verify_inputs-cons :
      (m : Bytes) (i : TxInput) (is : List TxInput)
      → (verify_inputs p m (i ∷ is) ≡ true) ↔ (IsSigned m i × (verify_inputs p m is ≡ true))
  unfolding verify_inputs verify_signature
  verify_inputs-cons m i is = (
    λ h. (
      record {
        key_present = ground arith;
        signature_present = ground arith;
        key_parses = ground arith;
        signature_parses = ground arith;
        accepted = ground arith;
      },
      ground arith,
    ),
    λ (s, r).
        rw
          (
            is_empty_ne i.signature s.signature_present,
            is_empty_ne i.pub_key s.key_present,
            s.key_parses,
            s.signature_parses,
            s.accepted,
          )
          r,
  )

  verify_inputs_iff :
      (m : Bytes) (is : List TxInput) → (verify_inputs p m is ≡ true) ↔ All (IsSigned m) is
  verify_inputs_iff m [] = (λ h. tt, λ h. unfold verify_inputs in refl)
  verify_inputs_iff m (i ∷ is) = (
    λ h. let q = (verify_inputs-cons m i is).0 h in (q.0, (verify_inputs_iff m is).0 q.1),
    λ q. (verify_inputs-cons m i is).1 (q.0, (verify_inputs_iff m is).1 q.1),
  )

  -- A transaction that is no coinbase passes Verify exactly if it has an input, and each of its
  -- inputs carries a key and a signature that is accepted for the transaction's ID and outputs.
  pub verify_iff :
      (tx : Transaction)
      → is_coinbase tx ≡ false
      → (verify p tx ≡ true) ↔ ((tx.inputs ≢ []) × All (IsSigned (get_sign_data p tx)) tx.inputs)
  unfolding verify
  verify_iff tx c = (
    λ h. (
      λ e. cc (rw (e, is_empty) at h),
      (verify_inputs_iff (get_sign_data p tx) tx.inputs).0 (ground arith),
    ),
    λ q.
        rw (is_empty_ne tx.inputs q.0, c)
          ((verify_inputs_iff (get_sign_data p tx) tx.inputs).1 q.1),
  )

  -- The transaction with its inputs pointed at other outputs.
  abbrev pub point_at : (TxInput → Bytes × ℤ) → TxInput → TxInput
  point_at f i = record i { txid = (f i).0; out_index = (f i).1 }

  abbrev pub retarget : (TxInput → Bytes × ℤ) → Transaction → Transaction
  retarget f tx = record tx { inputs = map (point_at f) tx.inputs }

  verify_inputs-retarget :
      (f : TxInput → Bytes × ℤ) (m : Bytes) (is : List TxInput)
      → verify_inputs p m (map (point_at f) is) ≡ verify_inputs p m is
  unfolding verify_inputs
  verify_inputs-retarget f m [] = refl
  verify_inputs-retarget f m (i ∷ is) = rw (verify_inputs-retarget f m is)

  -- Signatures do not cover what is spent: a transaction whose inputs are pointed at any other
  -- outputs, its ID kept, passes Verify as before, as long as neither is a coinbase.
  pub verify-retarget :
      (f : TxInput → Bytes × ℤ) (tx : Transaction)
      → is_coinbase tx ≡ false
      → is_coinbase (retarget f tx) ≡ false
      → verify p (retarget f tx) ≡ verify p tx
  unfolding verify get_sign_data
  verify-retarget f tx c c' =
      rw (c, c', is_empty-map tx.inputs, verify_inputs-retarget f _ tx.inputs)
    where
      is_empty-map : (is : List TxInput) → is_empty (map (point_at f) is) ≡ is_empty is
      is_empty-map [] = refl
      is_empty-map (i ∷ is) = refl
