-- ===== src/Core/Chain/Extend.antt =====
-- Adding a block keeps the indices right, as long as the tip carries its own position.
use earthion_blockchain_dev.Base.{
  ◌+◌, ◌-◌, ◌^◌, ◌<◌, List, [], ◌∷◌, ◌++◌, some, true, Bytes, length, length-append, last?,
  last?-append, get_elem?-append, get_elem?_lt, get_elem?-append_length, ◌≡◌, ◌⊎◌, inl, inr, refl,
  sym, ap, subst, ◌∙◌, arith, is_some, Elem, Elem-append,
}
use earthion_blockchain_dev.Base.Int.{ℤ, pos, add64, add64-pos}
use earthion_blockchain_dev.Base.Format.{hex_encode}
use earthion_blockchain_dev.Base.Map.{lookup}
use earthion_blockchain_dev.Base.Outcome.{returns}
use earthion_blockchain_dev.Core.Types.{Transaction, Block}
use earthion_blockchain_dev.Core.Platform.{Platform}
use earthion_blockchain_dev.Core.Block.{new_block}
use earthion_blockchain_dev.Core.Chain.{Blockchain, update_index, next_block, extend}
use earthion_blockchain_dev.Core.Chain.Index.{
  IsIndexed, IsBlockEntry, TxOf, insert_entry, insert_keeps, insert_adds, index_txs-entry,
  index_txs-keeps, index_txs-found,
}

-- The chain with a block put on top.
abbrev pub push_block : Block → Blockchain → Blockchain
push_block b bc = update_index b (record bc { blocks = bc.blocks ++ b ∷ [] })

TxOf-append_left : (tx : Transaction) (bs cs : List Block) → TxOf tx bs → TxOf tx (bs ++ cs)
TxOf-append_left tx [] cs h = elim h [ ]
TxOf-append_left tx (b ∷ bs) cs (inl e) = inl e
TxOf-append_left tx (b ∷ bs) cs (inr h) = inr (TxOf-append_left tx bs cs h)

TxOf-last :
    (tx : Transaction) (bs : List Block) (b : Block)
    → Elem tx b.transactions
    → TxOf tx (bs ++ b ∷ [])
TxOf-last tx [] b e = inl e
TxOf-last tx (c ∷ bs) b e = inr (TxOf-last tx bs b e)

TxOf-append_cases :
    (tx : Transaction) (bs : List Block) (b : Block)
    → TxOf tx (bs ++ b ∷ [])
    → TxOf tx bs ⊎ Elem tx b.transactions
TxOf-append_cases tx [] b (inl e) = inr e
TxOf-append_cases tx [] b (inr h) = elim h [ ]
TxOf-append_cases tx (c ∷ bs) b (inl e) = inl (inl e)
TxOf-append_cases tx (c ∷ bs) b (inr h) = elim (TxOf-append_cases tx bs b h) [
  | inl x ↦ inl (inr x)
  | inr e ↦ inr e
]

-- An entry stays right when the chain grows.
grow_entry :
    (blocks : List Block) (b : Block) {k : Bytes} {idx : ℤ}
    → IsBlockEntry blocks k idx
    → IsBlockEntry (blocks ++ b ∷ []) k idx
grow_entry blocks b e = record {
  place = e.place;
  block = e.block;
  at_place = e.at_place;
  holds = get_elem?-append blocks (b ∷ []) e.place (get_elem?_lt blocks e.place e.holds) ∙ e.holds;
  key = e.key;
}

-- The new block's entry, if the block carries the position that it is put at.
new_entry :
    (blocks : List Block) (b : Block)
    → b.index ≡ pos (length blocks)
    → IsBlockEntry (blocks ++ b ∷ []) (hex_encode b.hash) b.index
new_entry blocks b e = record {
  place = length blocks;
  block = b;
  at_place = e;
  holds = get_elem?-append_length blocks b (length blocks) refl;
  key = refl;
}

pub push_block-IsIndexed :
    (b : Block) (bc : Blockchain)
    → b.index ≡ pos (length bc.blocks)
    → IsIndexed bc
    → IsIndexed (push_block b bc)
unfolding update_index
push_block-IsIndexed b bc e h = record {
  block_entries = λ k idx l.
      elim (insert_entry (hex_encode b.hash) k b.index idx bc.block_index l) [
        | inl (key, value) ↦
            subst (λ i. IsBlockEntry (bc.blocks ++ b ∷ []) k i) value
              (subst (λ j. IsBlockEntry (bc.blocks ++ b ∷ []) j b.index) key
                (new_entry bc.blocks b e))
        | inr before ↦ grow_entry bc.blocks b (h.block_entries k idx before)
      ];
  block_found = λ c m. elim (Elem-append c bc.blocks (b ∷ []) m) [
    | inl old ↦
        insert_keeps (hex_encode b.hash) (hex_encode c.hash) b.index bc.block_index
          (h.block_found c old)
    | inr (inl new) ↦
        subst (λ d. is_some (lookup (hex_encode d.hash) (push_block b bc).block_index) ≡ true)
          (sym new) (insert_adds (hex_encode b.hash) b.index bc.block_index)
    | inr (inr none_left) ↦ elim none_left [ ]
  ];
  tx_entries =
      index_txs-entry (λ tx. TxOf tx (bc.blocks ++ b ∷ [])) b.transactions bc.tx_index
        (λ tx m. TxOf-last tx bc.blocks b m)
        (λ k tx l.
          let (old, key) = h.tx_entries k tx l in
          (TxOf-append_left tx bc.blocks (b ∷ []) old, key));
  tx_found = λ tx m. elim (TxOf-append_cases tx bc.blocks b m) [
    | inl old ↦ index_txs-keeps b.transactions bc.tx_index (hex_encode tx.id) (h.tx_found tx old)
    | inr new ↦ index_txs-found b.transactions bc.tx_index tx new
  ];
}

-- The tip carries its own position.
abbrev pub IsNumbered : Blockchain → Type 0
IsNumbered bc = (tip : Block) → last? bc.blocks ≡ some tip → tip.index ≡ pos (length bc.blocks - 1)

module _ (p : Platform) (now : ℤ) (txs : List Transaction) where
  index-next_block :
      (prev : Block) (blocks : List Block)
      → (next_block p now txs prev blocks).index ≡ add64 prev.index (pos 1)
  unfolding next_block new_block
  index-next_block prev blocks = refl

  fields-next_block :
      (prev : Block) (blocks : List Block)
      → let b = next_block p now txs prev blocks in
        (b.prev_hash ≡ prev.hash) × (b.transactions ≡ txs)
  unfolding next_block new_block
  fields-next_block prev blocks = (refl, refl)

  pub index-next_block-eq :
      (bc : Blockchain) (prev : Block)
      → last? bc.blocks ≡ some prev
      → length bc.blocks < 2 ^ 62
      → IsNumbered bc
      → (next_block p now txs prev bc.blocks).index ≡ pos (length bc.blocks)
  index-next_block-eq bc prev tip short numbered =
      index-next_block prev bc.blocks
      ∙ ap (λ (i : ℤ). add64 i (pos 1)) (numbered prev tip)
      ∙ add64-pos (length bc.blocks - 1) 1 (omega arith)
      ∙ ap pos (last?_suc bc.blocks tip)
    where
      last?_suc : (bs : List Block) → last? bs ≡ some prev → length bs - 1 + 1 ≡ length bs
      last?_suc [] e = absurd (cc e)
      last?_suc (c ∷ bs) e = omega arith

  -- AddBlock on a chain that is not empty and shorter than 2^62 blocks, whose tip carries its own
  -- position and whose indices are right: it does not panic, the new chain is the old one with one
  -- block put on top, which links to the old tip and carries the transactions, and the new tip
  -- carries its own position and the indices are right again.
  pub extend-IsIndexed :
      (bc : Blockchain) (prev : Block)
      → last? bc.blocks ≡ some prev
      → length bc.blocks < 2 ^ 62
      → IsNumbered bc
      → IsIndexed bc
      → let b = next_block p now txs prev bc.blocks in
        (extend p now txs bc ≡ returns (push_block b bc))
        × (b.prev_hash ≡ prev.hash)
        × (b.transactions ≡ txs)
        × IsNumbered (push_block b bc)
        × IsIndexed (push_block b bc)
  unfolding extend
  extend-IsIndexed bc prev tip short numbered indexed =
      let b = next_block p now txs prev bc.blocks in
      let here = index-next_block-eq bc prev tip short numbered in
      (
        rw (tip, extend) refl,
        (fields-next_block prev bc.blocks).0,
        (fields-next_block prev bc.blocks).1,
        (λ tip' e. new_numbered b here tip' e),
        push_block-IsIndexed b bc here indexed,
      )
    where
      new_numbered : (b : Block) → b.index ≡ pos (length bc.blocks) → IsNumbered (push_block b bc)
      new_numbered b here tip' e =
          let same : b ≡ tip' = cc (last?-append bc.blocks b, e) in
          subst (λ (c : Block). c.index ≡ pos (length (bc.blocks ++ b ∷ []) - 1)) same
            (here ∙ ap pos (omega (arith, length-append bc.blocks (b ∷ []))))
