-- ===== src/Core/Chain/Index.antt =====
-- The indices of a chain: what they hold, and that each operation keeps them right.
use earthion_blockchain_dev.Base.{
  ℕ, suc, ◌+◌, List, [], ◌∷◌, some, true, Bytes, bytes_equal_iff, get_elem?, ◌≡◌, ◌⊎◌, inl, inr,
  refl, sym, ap, subst, ◌∙◌, arith, is_some, Elem, Empty,
}
use earthion_blockchain_dev.Base.Int.{ℤ, pos}
use earthion_blockchain_dev.Base.Format.{hex_encode}
use earthion_blockchain_dev.Base.Map.{Map, lookup, insert, lookup-insert}
use earthion_blockchain_dev.Core.Types.{Transaction, Block}
use earthion_blockchain_dev.Core.Chain.{
  Blockchain, index_txs, index_hashes, index_all_txs, rebuild_index,
}

-- Some block of the chain holds the transaction.
abbrev pub TxOf : Transaction → List Block → Type 0
TxOf tx [] = Empty
TxOf tx (b ∷ bs) = Elem tx b.transactions ⊎ TxOf tx bs

-- An entry of the block index: the position of a block with that hash.
pub record IsBlockEntry (blocks : List Block) (k : Bytes) (idx : ℤ) : Type 0 where
  pub place : ℕ
  pub block : Block
  pub at_place : idx ≡ pos place
  pub holds : get_elem? blocks place ≡ some block
  pub key : k ≡ hex_encode block.hash

-- The indices hold the right entries only, and an entry for each block and each transaction.
pub record IsIndexed (bc : Blockchain) : Type 0 where
  pub block_entries :
      (k : Bytes) (idx : ℤ) → lookup k bc.block_index ≡ some idx → IsBlockEntry bc.blocks k idx
  pub block_found :
      (b : Block) → Elem b bc.blocks → is_some (lookup (hex_encode b.hash) bc.block_index) ≡ true
  pub tx_entries :
      (k : Bytes) (tx : Transaction)
      → lookup k bc.tx_index ≡ some tx
      → TxOf tx bc.blocks × (k ≡ hex_encode tx.id)
  pub tx_found :
      (tx : Transaction)
      → TxOf tx bc.blocks
      → is_some (lookup (hex_encode tx.id) bc.tx_index) ≡ true

module _ {ℓ} {V : Type ℓ} where
  -- An entry after a write is the one written or an old one.
  pub insert_entry :
      (k j : Bytes) (v w : V) (m : Map V)
      → lookup j (insert k v m) ≡ some w
      → ((k ≡ j) × (v ≡ w)) ⊎ (lookup j m ≡ some w)
  insert_entry k j v w m h = ground (arith, lookup-insert k j v m, bytes_equal_iff k j)

  pub insert_keeps :
      (k j : Bytes) (v : V) (m : Map V)
      → is_some (lookup j m) ≡ true
      → is_some (lookup j (insert k v m)) ≡ true
  insert_keeps k j v m h = rw (lookup-insert k j v m) (ground arith)

  pub insert_adds : (k : Bytes) (v : V) (m : Map V) → is_some (lookup k (insert k v m)) ≡ true
  insert_adds k v m = rw (lookup-insert k k v m) (ground (arith, bytes_equal_iff k k))

index_hashes-entry :
    (blocks bs : List Block) (i : ℕ) (m : Map ℤ)
    → ((j : ℕ) (b : Block) → get_elem? bs j ≡ some b → get_elem? blocks (i + j) ≡ some b)
    → ((k : Bytes) (idx : ℤ) → lookup k m ≡ some idx → IsBlockEntry blocks k idx)
    → (k : Bytes) (idx : ℤ) → lookup k (index_hashes bs i m) ≡ some idx
    → IsBlockEntry blocks k idx
unfolding index_hashes
index_hashes-entry blocks [] i m place old = old
index_hashes-entry blocks (b ∷ bs) i m place old =
    index_hashes-entry blocks bs (suc i) (insert (hex_encode b.hash) (pos i) m)
      (λ j c e. subst (λ n. get_elem? blocks n ≡ some c) (omega arith) (place (suc j) c e))
      (λ k idx h. elim (insert_entry (hex_encode b.hash) k (pos i) idx m h) [
        | inl (key, value) ↦ record {
          place = i;
          block = b;
          at_place = sym value;
          holds = subst (λ n. get_elem? blocks n ≡ some b) (omega arith) (place 0 b refl);
          key = sym key;
        }
        | inr before ↦ old k idx before
      ])

index_hashes-keeps :
    (bs : List Block) (i : ℕ) (m : Map ℤ) (k : Bytes)
    → is_some (lookup k m) ≡ true
    → is_some (lookup k (index_hashes bs i m)) ≡ true
unfolding index_hashes
index_hashes-keeps [] i m k h = h
index_hashes-keeps (b ∷ bs) i m k h =
    index_hashes-keeps bs (suc i) (insert (hex_encode b.hash) (pos i) m) k
      (insert_keeps (hex_encode b.hash) k (pos i) m h)

index_hashes-found :
    (bs : List Block) (i : ℕ) (m : Map ℤ) (b : Block)
    → Elem b bs
    → is_some (lookup (hex_encode b.hash) (index_hashes bs i m)) ≡ true
unfolding index_hashes
index_hashes-found [] i m b e = elim e [ ]
index_hashes-found (c ∷ bs) i m b (inl e) =
    index_hashes-keeps bs (suc i) (insert (hex_encode c.hash) (pos i) m) (hex_encode b.hash) (
      subst
        (λ d. is_some (lookup (hex_encode d.hash) (insert (hex_encode c.hash) (pos i) m)) ≡ true)
        (sym e) (insert_adds (hex_encode c.hash) (pos i) m))
index_hashes-found (c ∷ bs) i m b (inr e) =
    index_hashes-found bs (suc i) (insert (hex_encode c.hash) (pos i) m) b e

-- What an entry of the transaction index says, of a set of transactions.
abbrev pub IsTxEntry : (Transaction → Type 0) → Bytes → Transaction → Type 0
IsTxEntry T k tx = T tx × (k ≡ hex_encode tx.id)

pub index_txs-entry :
    (T : Transaction → Type 0) (txs : List Transaction) (m : Map Transaction)
    → ((tx : Transaction) → Elem tx txs → T tx)
    → ((k : Bytes) (tx : Transaction) → lookup k m ≡ some tx → IsTxEntry T k tx)
    → (k : Bytes) (tx : Transaction) → lookup k (index_txs txs m) ≡ some tx
    → IsTxEntry T k tx
unfolding index_txs
index_txs-entry T [] m new old = old
index_txs-entry T (t ∷ txs) m new old =
    index_txs-entry T txs (insert (hex_encode t.id) t m) (λ x e. new x (inr e))
      (λ k x h. elim (insert_entry (hex_encode t.id) k t x m h) [
        | inl (key, value) ↦ (
          subst T value (new t (inl refl)),
          sym key ∙ ap (λ (y : Transaction). hex_encode y.id) value,
        )
        | inr before ↦ old k x before
      ])

pub index_txs-keeps :
    (txs : List Transaction) (m : Map Transaction) (k : Bytes)
    → is_some (lookup k m) ≡ true
    → is_some (lookup k (index_txs txs m)) ≡ true
unfolding index_txs
index_txs-keeps [] m k h = h
index_txs-keeps (t ∷ txs) m k h =
    index_txs-keeps txs (insert (hex_encode t.id) t m) k (insert_keeps (hex_encode t.id) k t m h)

pub index_txs-found :
    (txs : List Transaction) (m : Map Transaction) (tx : Transaction)
    → Elem tx txs
    → is_some (lookup (hex_encode tx.id) (index_txs txs m)) ≡ true
unfolding index_txs
index_txs-found [] m tx e = elim e [ ]
index_txs-found (t ∷ txs) m tx (inl e) =
    index_txs-keeps txs (insert (hex_encode t.id) t m) (hex_encode tx.id) (
      subst (λ y. is_some (lookup (hex_encode y.id) (insert (hex_encode t.id) t m)) ≡ true) (sym e)
        (insert_adds (hex_encode t.id) t m))
index_txs-found (t ∷ txs) m tx (inr e) = index_txs-found txs (insert (hex_encode t.id) t m) tx e

index_all_txs-entry :
    (T : Transaction → Type 0) (bs : List Block) (m : Map Transaction)
    → ((tx : Transaction) → TxOf tx bs → T tx)
    → ((k : Bytes) (tx : Transaction) → lookup k m ≡ some tx → IsTxEntry T k tx)
    → (k : Bytes) (tx : Transaction) → lookup k (index_all_txs bs m) ≡ some tx
    → IsTxEntry T k tx
unfolding index_all_txs
index_all_txs-entry T [] m new old = old
index_all_txs-entry T (b ∷ bs) m new old =
    index_all_txs-entry T bs (index_txs b.transactions m) (λ x e. new x (inr e))
      (index_txs-entry T b.transactions m (λ x e. new x (inl e)) old)

index_all_txs-keeps :
    (bs : List Block) (m : Map Transaction) (k : Bytes)
    → is_some (lookup k m) ≡ true
    → is_some (lookup k (index_all_txs bs m)) ≡ true
unfolding index_all_txs
index_all_txs-keeps [] m k h = h
index_all_txs-keeps (b ∷ bs) m k h =
    index_all_txs-keeps bs (index_txs b.transactions m) k (index_txs-keeps b.transactions m k h)

index_all_txs-found :
    (bs : List Block) (m : Map Transaction) (tx : Transaction)
    → TxOf tx bs
    → is_some (lookup (hex_encode tx.id) (index_all_txs bs m)) ≡ true
unfolding index_all_txs
index_all_txs-found [] m tx e = elim e [ ]
index_all_txs-found (b ∷ bs) m tx (inl e) =
    index_all_txs-keeps bs (index_txs b.transactions m) (hex_encode tx.id)
      (index_txs-found b.transactions m tx e)
index_all_txs-found (b ∷ bs) m tx (inr e) = index_all_txs-found bs (index_txs b.transactions m) tx e

lookup_nil {ℓ} : {V : Type ℓ} (k : Bytes) {v : V} → lookup k [] ≡ some v → ⊥
unfolding lookup
lookup_nil k h = cc

-- Rebuilding the indices makes them right, whatever they were.
pub rebuild_index-IsIndexed : (bc : Blockchain) → IsIndexed (rebuild_index bc)
unfolding rebuild_index
rebuild_index-IsIndexed bc = record {
  block_entries =
      index_hashes-entry bc.blocks bc.blocks 0 []
        (λ j b e. subst (λ n. get_elem? bc.blocks n ≡ some b) (omega arith) e)
        (λ k idx h. absurd (lookup_nil k h));
  block_found = index_hashes-found bc.blocks 0 [];
  tx_entries =
      index_all_txs-entry (λ tx. TxOf tx bc.blocks) bc.blocks [] (λ tx e. e)
        (λ k tx h. absurd (lookup_nil k h));
  tx_found = index_all_txs-found bc.blocks [];
}
