-- ===== src/Core/Validate/Sound.antt =====
-- What a chain that Validate accepts is like.
use earthion_blockchain_dev.Base.{
  List, [], ◌∷◌, ◌++◌, Bool, true, false, Bytes, bytes_equal_iff, length, leb, if◌then◌else◌, ◌≡◌,
  ◌⊎◌, inl, inr, refl, subst, All, Bool-cases,
}
use earthion_blockchain_dev.Base.Map.{Map}
use earthion_blockchain_dev.Base.Outcome.{returns, panics}
use earthion_blockchain_dev.Crypto.Merkle.{new_merkle_tree, root_hash}
use earthion_blockchain_dev.Core.Types.{Transaction, Block}
use earthion_blockchain_dev.Core.Platform.{Platform}
use earthion_blockchain_dev.Core.Pow.{validate_pow}
use earthion_blockchain_dev.Core.Block.{tx_hashes}
use earthion_blockchain_dev.Core.Transaction.{is_coinbase, is_empty, verify}
use earthion_blockchain_dev.Core.Validate.{
  Check, go_on, reject, fault, ◌>>=◌, ◌>>◌, require, logs, require_logging, check_inputs, check_tx,
  check_txs, check_block, check_blocks, merkle_root_matches, validate,
}
use earthion_blockchain_dev.Core.Validate.Spending.{
  Distinct, input_keys, IsSpending, IsSpending-nil, IsSpending-append, check_inputs-IsSpending,
}

-- The keys of the outputs that transactions spend; a coinbase spends nothing.
abbrev pub tx_keys : Transaction → List Bytes
tx_keys tx = if is_coinbase tx then [] else input_keys tx.inputs

abbrev pub txs_keys : List Transaction → List Bytes
txs_keys [] = []
txs_keys (tx ∷ txs) = tx_keys tx ++ txs_keys txs

abbrev pub blocks_keys : List Block → List Bytes
blocks_keys [] = []
blocks_keys (b ∷ bs) = txs_keys b.transactions ++ blocks_keys bs

>>=-eq-go_on {ℓ κ} :
    {A : Type ℓ} {B : Type κ} (m : Check A) (f : A → Check B) {b : B}
    → (m >>= f) ≡ go_on b
    → (a : A) × (m ≡ go_on a) × (f a ≡ go_on b)
>>=-eq-go_on (go_on a) f h = (a, refl, h)
>>=-eq-go_on reject f h = absurd (cc h)
>>=-eq-go_on fault f h = absurd (cc h)

require-true : (c : Bool) {u : Unit {0}} → require c ≡ go_on u → c ≡ true
require-true true h = refl
require-true false h = absurd (cc h)

logs_no : (hs : List Bytes) {u : Unit {0}} → logs hs ≡ go_on u → ⊥
logs_no [] h = cc
logs_no (x ∷ hs) h = elim (Bool-cases (leb 8 (length x))) [
  | inl long ↦ logs_no hs (rw (long, logs) at h)
  | inr short ↦ cc (rw (short, logs) at h)
]

require_logging-true :
    (c : Bool) (hs : List Bytes) {u : Unit {0}} → require_logging c hs ≡ go_on u → c ≡ true
require_logging-true true hs h = refl
require_logging-true false hs h = absurd (logs_no hs h)

module _ (p : Platform) where
  -- A transaction is a coinbase or passes Verify.
  abbrev pub IsVerified : Transaction → Type 0
  IsVerified tx = (is_coinbase tx ≡ true) ⊎ (verify p tx ≡ true)

  -- A block links to the one before, passes its proof of work, carries the Merkle root of its
  -- transactions, and each of these is verified.
  pub record IsGoodBlock (prev b : Block) : Type 0 where
    pub linked : b.prev_hash ≡ prev.hash
    pub proved : validate_pow p b ≡ true
    pub merkle : b.merkle_root ≡ root_hash (new_merkle_tree p.digest (tx_hashes b.transactions))
    pub verified : All IsVerified b.transactions

  abbrev pub AllGood : Block → List Block → Type 0
  AllGood prev [] = Unit
  AllGood prev (b ∷ bs) = IsGoodBlock prev b × AllGood b bs

  check_tx_sound :
      (tx : Transaction) (spent : Map Bool) {after : Map Bool}
      → check_tx p tx spent ≡ go_on after
      → IsVerified tx × IsSpending spent (tx_keys tx) after
  unfolding check_tx
  check_tx_sound tx spent {after} h = elim (Bool-cases (is_coinbase tx)) [
    | inl coinbase ↦
        let e : spent ≡ after = go_on_eq (rw (coinbase, check_tx) at h) in
        (inl coinbase, rw coinbase (subst (IsSpending spent []) e (IsSpending-nil spent)))
    | inr payment ↦
        let (spent', checked, rest) =
          >>=-eq-go_on (check_inputs tx.inputs [] spent) (λ s. require (verify p tx) >> go_on s)
            (rw (payment, check_tx) at h) in
        let (u, required, e) = >>=-eq-go_on (require (verify p tx)) (λ _. go_on spent') rest in
        (
          inr (require-true (verify p tx) required),
          rw payment (
              subst (IsSpending spent (input_keys tx.inputs)) (go_on_eq e)
                (check_inputs-IsSpending tx.inputs [] spent checked)),
        )
  ]
    where
      go_on_eq : {a b : Map Bool} → go_on a ≡ go_on b → a ≡ b
      go_on_eq e = cc

  check_txs_sound :
      (txs : List Transaction) (spent : Map Bool) {after : Map Bool}
      → check_txs p txs spent ≡ go_on after
      → All IsVerified txs × IsSpending spent (txs_keys txs) after
  unfolding check_txs
  check_txs_sound [] spent {after} h =
      (tt, subst (IsSpending spent []) (cc h) (IsSpending-nil spent))
  check_txs_sound (tx ∷ txs) spent {after} h =
      let (mid, first, rest) = >>=-eq-go_on (check_tx p tx spent) (check_txs p txs) h in
      let (v, s) = check_tx_sound tx spent first in
      let (vs, ss) = check_txs_sound txs mid rest in
      ((v, vs), IsSpending-append spent mid after (tx_keys tx) (txs_keys txs) s ss)

  merkle_sound :
      (b : Block)
      → merkle_root_matches p b ≡ true
      → b.merkle_root ≡ root_hash (new_merkle_tree p.digest (tx_hashes b.transactions))
  unfolding merkle_root_matches
  merkle_sound b h =
      (bytes_equal_iff b.merkle_root
          (root_hash (new_merkle_tree p.digest (tx_hashes b.transactions)))).0
        h

  check_block_sound :
      (prev b : Block) (spent : Map Bool) {after : Map Bool}
      → check_block p prev b spent ≡ go_on after
      → IsGoodBlock prev b × IsSpending spent (txs_keys b.transactions) after
  unfolding check_block
  check_block_sound prev b spent {after} h =
      let (u, link, h1) = >>=-eq-go_on _ _ h in
      let (v, pow, h2) = >>=-eq-go_on _ _ h1 in
      let (w, root, h3) =
        >>=-eq-go_on (require (merkle_root_matches p b)) (λ _. check_txs p b.transactions spent)
          h2 in
      let (vs, s) = check_txs_sound b.transactions spent h3 in
      (
        record {
          linked = (bytes_equal_iff _ _).0 (require_logging-true _ _ link);
          proved = require_logging-true _ _ pow;
          merkle = merkle_sound b (require-true (merkle_root_matches p b) root);
          verified = vs;
        },
        s,
      )

  check_blocks_sound :
      (prev : Block) (bs : List Block) (spent : Map Bool) {after : Map Bool}
      → check_blocks p prev bs spent ≡ go_on after
      → AllGood prev bs × IsSpending spent (blocks_keys bs) after
  unfolding check_blocks
  check_blocks_sound prev [] spent {after} h =
      (tt, subst (IsSpending spent []) (cc h) (IsSpending-nil spent))
  check_blocks_sound prev (b ∷ bs) spent {after} h =
      let (mid, first, rest) = >>=-eq-go_on (check_block p prev b spent) (check_blocks p b bs) h in
      let (g, s) = check_block_sound prev b spent first in
      let (gs, ss) = check_blocks_sound b bs mid rest in
      ((g, gs), IsSpending-append spent mid after (txs_keys b.transactions) (blocks_keys bs) s ss)

  -- A chain that Validate accepts has a genesis block with no previous hash; every later block
  -- links to the one before, passes its proof of work, carries the Merkle root of its transactions,
  -- and holds only coinbases and transactions that pass Verify; and no two inputs of these
  -- transactions, in the whole chain, spend the same output.
  pub validate_sound :
      (genesis : Block) (bs : List Block)
      → validate p (genesis ∷ bs) ≡ returns true
      → (genesis.prev_hash ≡ []) × AllGood genesis bs × Distinct (blocks_keys bs)
  unfolding validate
  validate_sound genesis bs h = elim (Bool-cases (is_empty genesis.prev_hash)) [
    | inr some_bytes ↦ absurd (cc (rw (some_bytes, validate) at h))
    | inl empty ↦
        let (after, checked) =
          accepted (check_blocks p genesis bs []) (rw (empty, validate) at h) in
        let (good, spending) = check_blocks_sound genesis bs [] checked in
        (is_empty_eq genesis.prev_hash empty, good, spending.distinct)
  ]
    where
      accepted :
          (c : Check (Map Bool))
          → (elim c [ go_on spent ↦ returns true | reject ↦ returns false | fault ↦ panics ])
            ≡ returns true
          → (after : Map Bool) × (c ≡ go_on after)
      accepted (go_on after) e = (after, refl)
      accepted reject e = absurd (cc e)
      accepted fault e = absurd (cc e)

      is_empty_eq : (xs : Bytes) → is_empty xs ≡ true → xs ≡ []
      is_empty_eq [] e = refl
      is_empty_eq (x ∷ xs) e = absurd (cc e)
