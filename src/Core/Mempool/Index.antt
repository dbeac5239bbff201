-- ===== src/Core/Mempool/Index.antt =====
-- The invariant of the mempool: its size, its keys, what it holds, and the index by sender.
use earthion_blockchain_dev.Base.{
  ℕ, ◌+◌, ◌-◌, ◌≤◌, List, [], ◌∷◌, ◌++◌, Option, none, some, Bytes, bytes_equal, bytes_equal_iff,
  length, leb, if◌then◌else◌, ◌≡◌, refl, ap, subst, arith, inl, inr, Option-cases, Bool-cases,
}
use earthion_blockchain_dev.Base.Format.{hex_encode}
use earthion_blockchain_dev.Base.Map.{
  Map, lookup, insert, IsMap, insert-IsMap, erase-IsMap, lookup-insert, lookup-erase, length-insert,
  length-erase,
}
use earthion_blockchain_dev.Base.Outcome.{returns, panics}
use earthion_blockchain_dev.Core.Types.{Transaction}
use earthion_blockchain_dev.Core.Platform.{Platform}
use earthion_blockchain_dev.Core.Mempool.{
  Mempool, new_mempool, clear, AddError, validate_tx, sender_of, ids_of, index_id, store_tx, add_tx,
  add, drop_id, unindex_id, remove_tx, remove,
}

-- How often a key stands in a list.
abbrev pub occurrences : Bytes → List Bytes → ℕ
occurrences k [] = 0
occurrences k (j ∷ js) = if bytes_equal j k then occurrences k js + 1 else occurrences k js

-- One where the transaction has that sender.
abbrev pub is_sender : Bytes → Option Bytes → ℕ
is_sender s none = 0
is_sender s (some t) = if bytes_equal t s then 1 else 0

abbrev pub sent_by : Bytes → Option Transaction → ℕ
sent_by s none = 0
sent_by s (some tx) = is_sender s (sender_of tx)

occurrences-append :
    (k j : Bytes) (ids : List Bytes)
    → occurrences k (ids ++ j ∷ []) ≡ occurrences k ids + (if bytes_equal j k then 1 else 0)
occurrences-append k j [] = ground arith
occurrences-append k j (i ∷ is) = ground (arith, occurrences-append k j is)

occurrences-drop_id :
    (k j : Bytes) (ids : List Bytes)
    → occurrences k (drop_id j ids)
      ≡ (if bytes_equal j k then occurrences k ids - 1 else occurrences k ids)
unfolding drop_id
occurrences-drop_id k j [] = ground arith
occurrences-drop_id k j (i ∷ is) = ground (
  arith,
  occurrences-drop_id k j is,
  bytes_equal_iff i j,
  bytes_equal_iff j k,
  bytes_equal_iff i k,
)

ids_of-insert :
    (s t : Bytes) (ids : List Bytes) (m : Map (List Bytes))
    → ids_of s (insert t ids m) ≡ (if bytes_equal t s then ids else ids_of s m)
unfolding ids_of
ids_of-insert s t ids m = ground (arith, lookup-insert t s ids m)

occurrences-index_id :
    (s k id : Bytes) (o : Option Bytes) (m : Map (List Bytes))
    → occurrences k (ids_of s (index_id o id m))
      ≡ occurrences k (ids_of s m) + (if bytes_equal id k then is_sender s o else 0)
unfolding index_id
occurrences-index_id s k id none m = ground arith
occurrences-index_id s k id (some t) m = ground (
  arith,
  ids_of-insert s t (ids_of t m ++ id ∷ []) m,
  bytes_equal_iff t s,
  occurrences-append k id (ids_of t m),
)

occurrences-unindex_id :
    (s k id : Bytes) (o : Option Bytes) (m : Map (List Bytes))
    → occurrences k (ids_of s (unindex_id o id m))
      ≡ occurrences k (ids_of s m) - (if bytes_equal id k then is_sender s o else 0)
unfolding unindex_id ids_of
occurrences-unindex_id s k id none m = ground arith
occurrences-unindex_id s k id (some t) m = elim (Option-cases (lookup t m)) [
  | inl e ↦ rw (unindex_id, e) (ground (arith, bytes_equal_iff t s))
  | inr (ids, e) ↦
      rw (unindex_id, e)
        (ground (
          arith,
          lookup-insert t s (drop_id id ids) m,
          bytes_equal_iff t s,
          occurrences-drop_id k id ids,
        ))
]

module _ (p : Platform) where
  -- The pool is a map of at most a thousand transactions that validateTx accepts, each under the hex
  -- of its ID; and the list of a sender holds the keys of his transactions, each once, and no other.
  pub record IsSound (m : Mempool) : Type 0 where
    pub bounded : length m.txs ≤ 1000
    pub keyed : IsMap m.txs
    pub identified :
        (k : Bytes) (tx : Transaction) → lookup k m.txs ≡ some tx → k ≡ hex_encode tx.id
    pub checked :
        (k : Bytes) (tx : Transaction) → lookup k m.txs ≡ some tx → validate_tx p tx ≡ none
    pub indexed : (s k : Bytes) → occurrences k (ids_of s m.by_sender) ≡ sent_by s (lookup k m.txs)

  store_tx-IsSound :
      (tx : Transaction) (m : Mempool)
      → length m.txs + 1 ≤ 1000
      → lookup (hex_encode tx.id) m.txs ≡ none
      → validate_tx p tx ≡ none
      → IsSound m
      → IsSound (store_tx (hex_encode tx.id) tx m)
  unfolding store_tx
  store_tx-IsSound tx m room fresh valid h =
      let id = hex_encode tx.id in
      record {
        bounded = rw (length-insert id tx m.txs, fresh) room;
        keyed = insert-IsMap id tx m.txs h.keyed;
        identified = λ k u e.
            ground (arith, lookup-insert id k tx m.txs, bytes_equal_iff id k, h.identified k u);
        checked = λ k u e.
            ground (arith, lookup-insert id k tx m.txs, bytes_equal_iff id k, h.checked k u);
        indexed = λ s k. ground (
          arith,
          lookup-insert id k tx m.txs,
          bytes_equal_iff id k,
          h.indexed s k,
          occurrences-index_id s k id (sender_of tx) m.by_sender,
        );
      }

  remove_tx-IsSound :
      (key : Bytes) (tx : Transaction) (m : Mempool)
      → lookup key m.txs ≡ some tx
      → IsSound m
      → IsSound (remove_tx key tx m)
  unfolding remove_tx
  remove_tx-IsSound key tx m there h = record {
    bounded = (let a = length-erase key m.txs in let b = h.bounded in omega arith);
    keyed = erase-IsMap key m.txs h.keyed;
    identified =
        λ k u e. ground (arith, lookup-erase key k m.txs, bytes_equal_iff key k, h.identified k u);
    checked =
        λ k u e. ground (arith, lookup-erase key k m.txs, bytes_equal_iff key k, h.checked k u);
    indexed = λ s k. ground (
      arith,
      lookup-erase key k m.txs,
      bytes_equal_iff key k,
      h.indexed s k,
      occurrences-unindex_id s k key (sender_of tx) m.by_sender,
    );
  }

  add_tx-IsSound :
      (tx : Transaction) (m : Mempool)
      → length m.txs + 1 ≤ 1000
      → IsSound m
      → IsSound (add_tx p tx m).0
  unfolding add_tx
  add_tx-IsSound tx m room h = elim (Option-cases (lookup (hex_encode tx.id) m.txs)) [
    | inr (u, there) ↦ rw there h
    | inl fresh ↦ elim (Option-cases (validate_tx p tx)) [
      | inr (x, bad) ↦ rw (fresh, bad) h
      | inl valid ↦ rw (fresh, valid) (store_tx-IsSound tx m room fresh valid h)
    ]
  ]

  add-IsSound :
      (o : Option Transaction) (m m' : Mempool) (r : Option AddError)
      → add p o m ≡ returns (m', r)
      → IsSound m
      → IsSound m'
  unfolding add
  add-IsSound o m m' r e h = elim (Bool-cases (leb 1000 (length m.txs))) [
    | inl full ↦ subst IsSound (same (rw (full, add) at e)) h
    | inr room ↦ added o (ground arith) (rw (room, add) at e)
  ]
    where
      same : {a b : Mempool × Option AddError} → returns a ≡ returns b → a.0 ≡ b.0
      same e = ap (λ o. (elim o [ panics ↦ m | returns a ↦ a.0 ])) e

      added :
          (o : Option Transaction)
          → length m.txs + 1 ≤ 1000
          → (elim o [ none ↦ panics | some tx ↦ returns (add_tx p tx m) ]) ≡ returns (m', r)
          → IsSound m'
      added none room e = absurd (cc e)
      added (some tx) room e = subst IsSound (same e) (add_tx-IsSound tx m room h)

-- A step of the pool: a call of Add that returns, of Remove or of Clear.
pub data Step (p : Platform) : Mempool → Mempool → Type 0 where
  adds :
      (tx : Option Transaction) {m m' : Mempool} {r : Option AddError}
      → add p tx m ≡ returns (m', r)
      → Step p m m'
  removes : (txid : Bytes) {m : Mempool} → Step p m (remove txid m)
  clears : {m : Mempool} → Step p m (clear m)

-- The pools that calls can make from an empty one.
pub data Reachable (p : Platform) : Mempool → Type 0 where
  starts : Reachable p new_mempool
  steps : {m m' : Mempool} → Reachable p m → Step p m m' → Reachable p m'

module _ (p : Platform) where
  new_mempool-IsSound : IsSound p new_mempool
  unfolding new_mempool lookup ids_of IsMap
  new_mempool-IsSound = record {
    bounded = omega arith;
    keyed = tt;
    identified = λ k tx e. absurd (cc e);
    checked = λ k tx e. absurd (cc e);
    indexed = λ s k. refl;
  }

  remove-IsSound : (txid : Bytes) (m : Mempool) → IsSound p m → IsSound p (remove txid m)
  unfolding remove
  remove-IsSound txid m h = elim (Option-cases (lookup (hex_encode txid) m.txs)) [
    | inl e ↦ rw (remove, e) h
    | inr (tx, e) ↦ rw (remove, e) (remove_tx-IsSound p (hex_encode txid) tx m e h)
  ]

  -- Whatever calls of Add, Remove and Clear do to an empty mempool, it holds at most a thousand
  -- transactions, all of them accepted by validateTx and each under the hex of its ID; and the list
  -- of each sender holds the keys of exactly the transactions that he sent, each once.
  pub Reachable-IsSound : {m : Mempool} → Reachable p m → IsSound p m
  unfolding clear
  Reachable-IsSound starts = new_mempool-IsSound
  Reachable-IsSound (steps {m} {m'} r (adds tx {r = answer} e)) =
      add-IsSound p tx m m' answer e (Reachable-IsSound r)
  Reachable-IsSound (steps {m} r (removes txid)) = remove-IsSound txid m (Reachable-IsSound r)
  Reachable-IsSound (steps r clears) = new_mempool-IsSound
