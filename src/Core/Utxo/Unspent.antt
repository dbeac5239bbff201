-- ===== src/Core/Utxo/Unspent.antt =====
-- UTXOIndex holds exactly the outputs that were created and not spent since.
use earthion_blockchain_dev.Base.{
  ℕ, zero, suc, ◌+◌, ◌<◌, List, [], ◌∷◌, Option, none, some, Bool, true, false, ◌&&◌, ◌||◌, Bytes,
  bytes_equal, bytes_equal_iff, bytes_equal_ne, if◌then◌else◌, ◌≡◌, ◌≢◌, ◌↔◌, ◌⊎◌, inl, inr, refl,
  sym, ◌∙◌, arith, get_elem?, bool_ext, &&_true, Bool-cases, Option-cases, ap₂,
}
use earthion_blockchain_dev.Base.Int.{ℤ, pos, minus_one, eqb_ℤ, eqb_ℤ_iff}
use earthion_blockchain_dev.Base.Format.{outpoint_key, outpoint_key_injective}
use earthion_blockchain_dev.Base.Map.{Map, lookup, insert, erase, lookup-insert, lookup-erase}
use earthion_blockchain_dev.Core.Types.{TxInput, TxOutput, Transaction, Block}
use earthion_blockchain_dev.Core.Utxo.{
  add_outputs, remove_spent, apply_tx, apply_txs, apply_blocks, utxo_index,
}

-- Some input spends output `i` of transaction `id`.
abbrev pub spends : List TxInput → Bytes → ℕ → Bool
spends [] id i = false
spends (x ∷ xs) id i = (bytes_equal x.txid id && eqb_ℤ x.out_index (pos i)) || spends xs id i

-- `outputs[i - j]`, if `i` is not below `j`.
abbrev output_from : List TxOutput → ℕ → ℕ → Option TxOutput
output_from [] j i = none
output_from (o ∷ os) j i = elim (eqb_ℤ (pos j) (pos i)) [
  | true ↦ some o
  | false ↦ output_from os (suc j) i
]

key_equal :
    (a b : Bytes) (i j : ℤ)
    → bytes_equal (outpoint_key a i) (outpoint_key b j) ≡ (bytes_equal a b && eqb_ℤ i j)
key_equal a b i j =
    bool_ext (bytes_equal (outpoint_key a i) (outpoint_key b j)) (bytes_equal a b && eqb_ℤ i j)
      (λ h.
        let e =
          outpoint_key_injective a b i j
            ((bytes_equal_iff (outpoint_key a i) (outpoint_key b j)).0 h) in
        rw ((bytes_equal_iff a b).1 e.0) ((eqb_ℤ_iff i j).1 e.1))
      (λ h.
        let (ha, hi) = &&_true h in
        (bytes_equal_iff (outpoint_key a i) (outpoint_key b j)).1
          (ap₂ outpoint_key ((bytes_equal_iff a b).0 ha) ((eqb_ℤ_iff i j).0 hi)))

lookup-remove_one :
    (x : TxInput) (id : Bytes) (i : ℕ) (m : Map TxOutput)
    → lookup
        (outpoint_key id (pos i))
        (if eqb_ℤ x.out_index minus_one then m else erase (outpoint_key x.txid x.out_index) m)
      ≡ (if bytes_equal x.txid id && eqb_ℤ x.out_index (pos i)
          then none
          else lookup (outpoint_key id (pos i)) m)
lookup-remove_one x id i m = elim (Bool-cases (eqb_ℤ x.out_index minus_one)) [
  | inl coinbase ↦ rw coinbase (rw (other coinbase) refl)
  | inr spending ↦ rw (spending, lookup-erase, key_equal) refl
]
  where
    other :
        eqb_ℤ x.out_index minus_one ≡ true
        → (bytes_equal x.txid id && eqb_ℤ x.out_index (pos i)) ≡ false
    other e = rw ((eqb_ℤ_iff x.out_index minus_one).0 e) (ground arith)

lookup-remove_spent :
    (is : List TxInput) (id : Bytes) (i : ℕ) (m : Map TxOutput)
    → lookup (outpoint_key id (pos i)) (remove_spent is m)
      ≡ (if spends is id i then none else lookup (outpoint_key id (pos i)) m)
unfolding remove_spent
lookup-remove_spent [] id i m = refl
lookup-remove_spent (x ∷ xs) id i m =
    lookup-remove_spent xs id i
      (if eqb_ℤ x.out_index minus_one then m else erase (outpoint_key x.txid x.out_index) m)
    ∙ rw (lookup-remove_one x id i m) (
        if_if (spends xs id i) (bytes_equal x.txid id && eqb_ℤ x.out_index (pos i))
          (lookup (outpoint_key id (pos i)) m))
  where
    if_if :
        (a b : Bool) (l : Option TxOutput)
        → (if a then none else if b then none else l) ≡ (if b || a then none else l)
    if_if a b l = ground arith

or_else : Option TxOutput → Option TxOutput → Option TxOutput
or_else none o = o
or_else (some x) o = some x

output_from-below : (os : List TxOutput) (j i : ℕ) → i < j → output_from os j i ≡ none
output_from-below [] j i h = refl
output_from-below (o ∷ os) j i h = ground (arith, output_from-below os (suc j) i)

lookup-add_outputs :
    (txid : Bytes) (os : List TxOutput) (j : ℕ) (id : Bytes) (i : ℕ) (m : Map TxOutput)
    → lookup (outpoint_key id (pos i)) (add_outputs txid os j m) ≡ (
        if bytes_equal txid id
        then or_else (output_from os j i) (lookup (outpoint_key id (pos i)) m)
        else lookup (outpoint_key id (pos i)) m)
unfolding add_outputs or_else
lookup-add_outputs txid [] j id i m = ground arith
lookup-add_outputs txid (o ∷ os) j id i m =
    rw
      (
        lookup-add_outputs txid os (suc j) id i (insert (outpoint_key txid (pos j)) o m),
        lookup-insert (outpoint_key txid (pos j)) (outpoint_key id (pos i)) o m,
        key_equal txid id (pos j) (pos i),
      )
      (ground (arith, output_from-below os (suc j) i))

output_from-get_elem? :
    (os : List TxOutput) (j i k : ℕ) → j + i ≡ k → output_from os j k ≡ get_elem? os i
output_from-get_elem? [] j i k e = refl
output_from-get_elem? (o ∷ os) j zero k e = ground arith
output_from-get_elem? (o ∷ os) j (suc i) k e = ground (arith, output_from-get_elem? os (suc j) i k)

lookup-apply_tx :
    (tx : Transaction) (id : Bytes) (i : ℕ) (m : Map TxOutput)
    → lookup (outpoint_key id (pos i)) (apply_tx m tx) ≡ (
        if spends tx.inputs id i
        then none
        else if bytes_equal tx.id id
        then or_else (get_elem? tx.outputs i) (lookup (outpoint_key id (pos i)) m)
        else lookup (outpoint_key id (pos i)) m)
unfolding apply_tx
lookup-apply_tx tx id i m = rw (
  lookup-remove_spent tx.inputs id i (add_outputs tx.id tx.outputs 0 m),
  lookup-add_outputs tx.id tx.outputs 0 id i m,
  output_from-get_elem? tx.outputs 0 i i (omega arith),
)

-- Transactions pushed onto a history, the newest first.
abbrev push_txs : List Transaction → List Transaction → List Transaction
push_txs [] older = older
push_txs (tx ∷ txs) older = push_txs txs (tx ∷ older)

abbrev push_blocks : List Block → List Transaction → List Transaction
push_blocks [] older = older
push_blocks (b ∷ bs) older = push_blocks bs (push_txs b.transactions older)

-- The transactions of a chain, the newest first.
abbrev pub history : List Block → List Transaction
history blocks = push_blocks blocks []

-- Output `i` of transaction `id` is `o` and is unspent, in a history with the newest transaction
-- first: the newest transaction created it and does not spend it, or it was unspent before, and
-- the newest transaction neither creates it again nor spends it.
pub data Unspent (id : Bytes) (i : ℕ) (o : TxOutput) : List Transaction → Type 0 where
  created :
      {tx : Transaction} {older : List Transaction}
      → tx.id ≡ id
      → get_elem? tx.outputs i ≡ some o
      → spends tx.inputs id i ≡ false
      → Unspent id i o (tx ∷ older)
  kept :
      {tx : Transaction} {older : List Transaction}
      → Unspent id i o older
      → (tx.id ≢ id) ⊎ (get_elem? tx.outputs i ≡ none)
      → spends tx.inputs id i ≡ false
      → Unspent id i o (tx ∷ older)

-- The index of a history.
index_of : List Transaction → Map TxOutput
index_of [] = []
index_of (tx ∷ older) = apply_tx (index_of older) tx

module _ (id : Bytes) (i : ℕ) (o : TxOutput) where
  lookup-Unspent_step :
      (tx : Transaction) (older : List Transaction)
      → (lookup (outpoint_key id (pos i)) (index_of older) ≡ some o → Unspent id i o older)
      → (if spends tx.inputs id i
          then none
          else if bytes_equal tx.id id
          then or_else (get_elem? tx.outputs i) (lookup (outpoint_key id (pos i)) (index_of older))
          else lookup (outpoint_key id (pos i)) (index_of older))
        ≡ some o
      → Unspent id i o (tx ∷ older)
  unfolding or_else
  lookup-Unspent_step tx older before h = elim (Bool-cases (spends tx.inputs id i)) [
    | inl s ↦ absurd (ground arith)
    | inr s ↦ elim (Bool-cases (bytes_equal tx.id id)) [
      | inl e ↦ elim (Option-cases (get_elem? tx.outputs i)) [
        | inl g ↦ kept (before (ground arith)) (inr g) s
        | inr (x, g) ↦ created ((bytes_equal_iff tx.id id).0 e) (ground arith) s
      ]
      | inr ne ↦ kept (before (ground arith)) (inl (λ e. cc ((bytes_equal_iff tx.id id).1 e, ne))) s
    ]
  ]

  lookup-Unspent :
      (txs : List Transaction)
      → lookup (outpoint_key id (pos i)) (index_of txs) ≡ some o
      → Unspent id i o txs
  unfolding index_of lookup
  lookup-Unspent [] h = absurd (cc h)
  lookup-Unspent (tx ∷ older) h =
      lookup-Unspent_step tx older (lookup-Unspent older)
        (sym (lookup-apply_tx tx id i (index_of older)) ∙ h)

  Unspent-lookup :
      {txs : List Transaction}
      → Unspent id i o txs
      → lookup (outpoint_key id (pos i)) (index_of txs) ≡ some o
  unfolding index_of or_else
  Unspent-lookup (created {tx = tx} {older = older} e g s) =
      rw (lookup-apply_tx tx id i (index_of older), s, (bytes_equal_iff tx.id id).1 e, g)
  Unspent-lookup (kept {tx = tx} {older = older} u (inl ne) s) =
      rw (lookup-apply_tx tx id i (index_of older), s, bytes_equal_ne tx.id id ne)
        (Unspent-lookup u)
  Unspent-lookup (kept {tx = tx} {older = older} u (inr g) s) =
      let ih = Unspent-lookup u in
      rw (lookup-apply_tx tx id i (index_of older), s, g) (ground arith)

apply_txs-push :
    (txs older : List Transaction) → apply_txs (index_of older) txs ≡ index_of (push_txs txs older)
unfolding apply_txs index_of
apply_txs-push [] older = refl
apply_txs-push (tx ∷ txs) older = apply_txs-push txs (tx ∷ older)

apply_blocks-push :
    (bs : List Block) (older : List Transaction)
    → apply_blocks (index_of older) bs ≡ index_of (push_blocks bs older)
unfolding apply_blocks
apply_blocks-push [] older = refl
apply_blocks-push (b ∷ bs) older =
    rw (apply_txs-push b.transactions older) (apply_blocks-push bs (push_txs b.transactions older))

utxo_index-eq : (blocks : List Block) → utxo_index blocks ≡ index_of (history blocks)
unfolding utxo_index index_of
utxo_index-eq blocks = apply_blocks-push blocks []

-- For every chain, UTXOIndex has the entry of output `i` of transaction `id` exactly if that output
-- is unspent in the chain's history, and the entry is that output.
pub utxo_index_iff :
    (blocks : List Block) (id : Bytes) (i : ℕ) (o : TxOutput)
    → (lookup (outpoint_key id (pos i)) (utxo_index blocks) ≡ some o)
      ↔ Unspent id i o (history blocks)
utxo_index_iff blocks id i o =
    rw (utxo_index-eq blocks) (lookup-Unspent id i o (history blocks), Unspent-lookup id i o)
