-- ===== src/Core/Validate/Spending.antt =====
-- The maps of spent outputs record each output once.
use earthion_blockchain_dev.Base.{
  List, [], ◌∷◌, ◌++◌, Bool, true, false, ◌||◌, Bytes, bytes_equal, bytes_equal_iff, ◌≡◌, inl, inr,
  refl, subst, ◌∙◌, arith, All, Bool-cases,
}
use earthion_blockchain_dev.Base.Int.{minus_one, eqb_ℤ}
use earthion_blockchain_dev.Base.Format.{outpoint_key}
use earthion_blockchain_dev.Base.Map.{Map, insert, lookup-insert}
use earthion_blockchain_dev.Core.Types.{TxInput}
use earthion_blockchain_dev.Core.Validate.{go_on, contains, check_inputs}

abbrev pub mem_key : Bytes → List Bytes → Bool
mem_key k [] = false
mem_key k (j ∷ ks) = bytes_equal j k || mem_key k ks

-- No key stands twice.
abbrev pub Distinct : List Bytes → Type 0
Distinct [] = Unit
Distinct (k ∷ ks) = (mem_key k ks ≡ false) × Distinct ks

-- The keys of the outputs that inputs spend; an index of -1 spends nothing.
abbrev pub input_keys : List TxInput → List Bytes
input_keys [] = []
input_keys (i ∷ is) = elim (eqb_ℤ i.out_index minus_one) [
  | true ↦ input_keys is
  | false ↦ outpoint_key i.txid i.out_index ∷ input_keys is
]

-- From `before` to `after` exactly these keys are recorded: none twice, and none that was there.
pub record IsSpending (before : Map Bool) (keys : List Bytes) (after : Map Bool) : Type 0 where
  pub distinct : Distinct keys
  pub fresh : All (λ k. contains k before ≡ false) keys
  pub recorded : (k : Bytes) → contains k after ≡ (contains k before || mem_key k keys)

contains-insert :
    (k j : Bytes) (m : Map Bool) → contains j (insert k true m) ≡ (bytes_equal k j || contains j m)
contains-insert k j m = ground (arith, lookup-insert k j true m)

mem_key-append :
    (k : Bytes) (ks ls : List Bytes) → mem_key k (ks ++ ls) ≡ (mem_key k ks || mem_key k ls)
mem_key-append k [] ls = refl
mem_key-append k (j ∷ ks) ls = ground (arith, mem_key-append k ks ls)

-- Keys that are not among `k ∷ ks` do not include `k`.
mem_key_apart :
    (k : Bytes) (ks ls : List Bytes)
    → All (λ l. mem_key l (k ∷ ks) ≡ false) ls
    → mem_key k ls ≡ false
mem_key_apart k ks [] h = refl
mem_key_apart k ks (l ∷ ls) h =
    ground (arith, mem_key_apart k ks ls h.1, bytes_equal_iff l k, bytes_equal_iff k l)

All-tail :
    (k : Bytes) (ks ls : List Bytes)
    → All (λ l. mem_key l (k ∷ ks) ≡ false) ls
    → All (λ l. mem_key l ks ≡ false) ls
All-tail k ks [] h = tt
All-tail k ks (l ∷ ls) h = (ground arith, All-tail k ks ls h.1)

Distinct-append :
    (ks ls : List Bytes)
    → Distinct ks
    → Distinct ls
    → All (λ l. mem_key l ks ≡ false) ls
    → Distinct (ks ++ ls)
Distinct-append [] ls hk hl apart = hl
Distinct-append (k ∷ ks) ls hk hl apart = (
  mem_key-append k ks ls ∙ ground (arith, mem_key_apart k ks ls apart),
  Distinct-append ks ls hk.1 hl (All-tail k ks ls apart),
)

pub IsSpending-nil : (m : Map Bool) → IsSpending m [] m
IsSpending-nil m = record { distinct = tt; fresh = tt; recorded = λ k. ground arith }

All-append' {ℓ} :
    {A : Type ℓ} (P : A → Type 0) (xs ys : List A) → All P xs → All P ys → All P (xs ++ ys)
All-append' P [] ys _ h = h
All-append' P (x ∷ xs) ys (p, g) h = (p, All-append' P xs ys g h)

pub IsSpending-append :
    (a b c : Map Bool) (ks ls : List Bytes)
    → IsSpending a ks b
    → IsSpending b ls c
    → IsSpending a (ks ++ ls) c
IsSpending-append a b c ks ls s t = record {
  distinct = Distinct-append ks ls s.distinct t.distinct (apart ls t.fresh);
  fresh = All-append' _ ks ls s.fresh (old ls t.fresh);
  recorded = λ k. ground (arith, t.recorded k, s.recorded k, mem_key-append k ks ls);
}
  where
    apart :
        (xs : List Bytes) → All (λ k. contains k b ≡ false) xs → All (λ l. mem_key l ks ≡ false) xs
    apart [] h = tt
    apart (x ∷ xs) h = (ground (arith, s.recorded x, h.0), apart xs h.1)

    old :
        (xs : List Bytes) → All (λ k. contains k b ≡ false) xs → All (λ k. contains k a ≡ false) xs
    old [] h = tt
    old (x ∷ xs) h = (ground (arith, s.recorded x, h.0), old xs h.1)

IsSpending-one :
    (k : Bytes) (m : Map Bool) → contains k m ≡ false → IsSpending m (k ∷ []) (insert k true m)
IsSpending-one k m h = record {
  distinct = (refl, tt);
  fresh = (h, tt);
  recorded = λ j. ground (arith, contains-insert k j m);
}

-- A pass over the inputs records the keys of the outputs that they spend.
pub check_inputs-IsSpending :
    (is : List TxInput) (seen spent : Map Bool) {after : Map Bool}
    → check_inputs is seen spent ≡ go_on after
    → IsSpending spent (input_keys is) after
unfolding check_inputs
check_inputs-IsSpending [] seen spent {after} h =
    subst (IsSpending spent []) (the_same h) (IsSpending-nil spent)
  where
    the_same : go_on spent ≡ go_on after → spent ≡ after
    the_same e = cc
check_inputs-IsSpending (i ∷ is) seen spent {after} h =
    elim (Bool-cases (eqb_ℤ i.out_index minus_one)) [
      | inl skip ↦
          let q : check_inputs is seen spent ≡ go_on after = rw (skip, check_inputs) at h in
          rw (skip, input_keys) (check_inputs-IsSpending is seen spent q)
      | inr spends ↦
          let k = outpoint_key i.txid i.out_index in
          elim (Bool-cases (contains k seen)) [
            | inl twice ↦ absurd (cc (rw (spends, twice, check_inputs) at h))
            | inr once ↦ elim (Bool-cases (contains k spent)) [
              | inl old ↦ absurd (cc (rw (spends, once, old, check_inputs) at h))
              | inr new ↦
                  let q : check_inputs is (insert k true seen) (insert k true spent) ≡ go_on after =
                    rw (spends, once, new, check_inputs) at h in
                  rw (spends, input_keys)
                    (IsSpending-append spent (insert k true spent) after (k ∷ []) (input_keys is)
                      (IsSpending-one k spent new)
                      (check_inputs-IsSpending is (insert k true seen) (insert k true spent) q))
            ]
          ]
    ]
