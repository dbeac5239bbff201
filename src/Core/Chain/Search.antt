-- ===== src/Core/Chain/Search.antt =====
-- GetBlock and FindTransaction on a chain whose indices are right.
use earthion_blockchain_dev.Base.{
  ℕ, List, [], ◌∷◌, Option, none, some, Bytes, bytes_equal, bytes_equal_iff, get_elem?,
  get_elem?-Elem, ◌≡◌, ◌≢◌, inl, inr, refl, sym, ap, ◌∙◌, Elem, Bool-cases, Option-cases,
}
use earthion_blockchain_dev.Base.Int.{ℤ, pos}
use earthion_blockchain_dev.Base.Format.{hex_encode, hex_encode_injective}
use earthion_blockchain_dev.Base.Map.{lookup}
use earthion_blockchain_dev.Base.Outcome.{returns}
use earthion_blockchain_dev.Core.Types.{Transaction, Block}
use earthion_blockchain_dev.Core.Chain.{
  Blockchain, block_at, find_block, some_block, get_block, find_in_txs, find_in_blocks,
  find_transaction,
}
use earthion_blockchain_dev.Core.Chain.Index.{IsIndexed, TxOf}

-- The answer for a hash: a block of the chain with that hash, or none if there is none.
abbrev pub IsBlockAnswer : Bytes → List Block → Option Block → Type 0
IsBlockAnswer h blocks (some b) = Elem b blocks × (b.hash ≡ h)
IsBlockAnswer h blocks none = (b : Block) → Elem b blocks → b.hash ≢ h

IsBlockAnswer-cons :
    (h : Bytes) (b : Block) (bs : List Block) (o : Option Block)
    → b.hash ≢ h
    → IsBlockAnswer h bs o
    → IsBlockAnswer h (b ∷ bs) o
IsBlockAnswer-cons h b bs none ne a =
    λ c m. elim m [ inl e ↦ λ p. ne (ap (λ (d : Block). d.hash) (sym e) ∙ p) | inr m' ↦ a c m' ]
IsBlockAnswer-cons h b bs (some c) ne a = (inr a.0, a.1)

find_block-IsBlockAnswer :
    (h : Bytes) (blocks : List Block) → IsBlockAnswer h blocks (find_block h blocks)
unfolding find_block
find_block-IsBlockAnswer h [] = λ b m. elim m [ ]
find_block-IsBlockAnswer h (b ∷ bs) = elim (Bool-cases (bytes_equal b.hash h)) [
  | inl same ↦ rw same (inl refl, (bytes_equal_iff b.hash h).0 same)
  | inr other ↦ rw other (
      IsBlockAnswer-cons h b bs (find_block h bs) (λ e. cc ((bytes_equal_iff b.hash h).1 e, other))
        (find_block-IsBlockAnswer h bs))
]

some_block-block_at :
    (blocks : List Block) (n : ℕ) (b : Block) (idx : ℤ)
    → idx ≡ pos n
    → get_elem? blocks n ≡ some b
    → some_block (block_at blocks idx) ≡ returns (some b)
unfolding some_block block_at
some_block-block_at blocks n b idx e h = rw (e, h, block_at) refl

-- On a chain whose indices are right GetBlock does not panic, and returns a block of the chain with
-- the hash, or nil if no block of the chain has it.
pub get_block-IsBlockAnswer :
    (h : Bytes) (bc : Blockchain)
    → IsIndexed bc
    → (o : Option Block) × (get_block h bc ≡ returns o) × IsBlockAnswer h bc.blocks o
unfolding get_block
get_block-IsBlockAnswer h bc indexed = elim (Option-cases (lookup (hex_encode h) bc.block_index)) [
  | inl absent ↦
      (find_block h bc.blocks, rw (absent, get_block) refl, find_block-IsBlockAnswer h bc.blocks)
  | inr (idx, present) ↦
      let entry = indexed.block_entries (hex_encode h) idx present in
      (
        some entry.block,
        rw (present, get_block)
            (some_block-block_at bc.blocks entry.place entry.block idx entry.at_place entry.holds),
        (
          get_elem?-Elem bc.blocks entry.place entry.holds,
          hex_encode_injective entry.block.hash h (sym entry.key),
        ),
      )
]

-- The answer for an ID: a transaction of the chain with that ID, or none if there is none.
abbrev pub IsTxAnswer : Bytes → List Block → Option Transaction → Type 0
IsTxAnswer id blocks (some tx) = TxOf tx blocks × (tx.id ≡ id)
IsTxAnswer id blocks none = (tx : Transaction) → TxOf tx blocks → tx.id ≢ id

abbrev IsTxsAnswer : Bytes → List Transaction → Option Transaction → Type 0
IsTxsAnswer id txs (some tx) = Elem tx txs × (tx.id ≡ id)
IsTxsAnswer id txs none = (tx : Transaction) → Elem tx txs → tx.id ≢ id

IsTxsAnswer-cons :
    (id : Bytes) (t : Transaction) (txs : List Transaction) (o : Option Transaction)
    → t.id ≢ id
    → IsTxsAnswer id txs o
    → IsTxsAnswer id (t ∷ txs) o
IsTxsAnswer-cons id t txs none ne a =
    λ c m. elim m [ inl e ↦ λ p. ne (ap (λ (d : Transaction). d.id) (sym e) ∙ p) | inr m' ↦ a c m' ]
IsTxsAnswer-cons id t txs (some c) ne a = (inr a.0, a.1)

find_in_txs-IsTxsAnswer :
    (id : Bytes) (txs : List Transaction) → IsTxsAnswer id txs (find_in_txs id txs)
unfolding find_in_txs
find_in_txs-IsTxsAnswer id [] = λ tx m. elim m [ ]
find_in_txs-IsTxsAnswer id (t ∷ txs) = elim (Bool-cases (bytes_equal t.id id)) [
  | inl same ↦ rw same (inl refl, (bytes_equal_iff t.id id).0 same)
  | inr other ↦ rw other (
      IsTxsAnswer-cons id t txs (find_in_txs id txs)
        (λ e. cc ((bytes_equal_iff t.id id).1 e, other)) (find_in_txs-IsTxsAnswer id txs))
]

IsTxAnswer-cons :
    (id : Bytes) (b : Block) (bs : List Block) (o : Option Transaction)
    → IsTxsAnswer id b.transactions none
    → IsTxAnswer id bs o
    → IsTxAnswer id (b ∷ bs) o
IsTxAnswer-cons id b bs none here a = λ tx m. elim m [ inl e ↦ here tx e | inr m' ↦ a tx m' ]
IsTxAnswer-cons id b bs (some tx) here a = (inr a.0, a.1)

find_in_blocks-IsTxAnswer :
    (id : Bytes) (blocks : List Block) → IsTxAnswer id blocks (find_in_blocks id blocks)
unfolding find_in_blocks
find_in_blocks-IsTxAnswer id [] = λ tx m. elim m [ ]
find_in_blocks-IsTxAnswer id (b ∷ bs) =
    here (find_in_txs id b.transactions) refl (find_in_txs-IsTxsAnswer id b.transactions)
      (find_in_blocks-IsTxAnswer id bs)
  where
    here :
        (o : Option Transaction)
        → find_in_txs id b.transactions ≡ o
        → IsTxsAnswer id b.transactions o
        → IsTxAnswer id bs (find_in_blocks id bs)
        → IsTxAnswer id (b ∷ bs) (find_in_blocks id (b ∷ bs))
    here none e a rest =
        rw (e, find_in_blocks) (IsTxAnswer-cons id b bs (find_in_blocks id bs) a rest)
    here (some tx) e a rest = rw (e, find_in_blocks) (inl a.0, a.1)

-- On a chain whose indices are right FindTransaction returns a transaction of the chain with the
-- ID, or nil if no transaction of the chain has it.
pub find_transaction-IsTxAnswer :
    (id : Bytes) (bc : Blockchain) → IsIndexed bc → IsTxAnswer id bc.blocks (find_transaction id bc)
unfolding find_transaction
find_transaction-IsTxAnswer id bc indexed =
    elim (Option-cases (lookup (hex_encode id) bc.tx_index)) [
      | inl absent ↦ rw (absent, find_transaction) (find_in_blocks-IsTxAnswer id bc.blocks)
      | inr (tx, present) ↦
          let (held, key) = indexed.tx_entries (hex_encode id) tx present in
          rw (present, find_transaction) (held, hex_encode_injective tx.id id (sym key))
    ]
