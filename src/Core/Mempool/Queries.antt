-- ===== src/Core/Mempool/Queries.antt =====
-- What Get and GetBySender answer.
use earthion_blockchain_dev.Base.{
  ◌≤◌, List, [], ◌∷◌, Option, none, some, Bytes, bytes_equal, bytes_equal_iff, if◌then◌else◌, ◌≡◌,
  ◌↔◌, refl, sym, subst, arith, inl, inr, Elem, Option-cases,
}
use earthion_blockchain_dev.Base.Format.{hex_encode}
use earthion_blockchain_dev.Base.Map.{Map, lookup, lookup-erase}
use earthion_blockchain_dev.Core.Types.{Transaction}
use earthion_blockchain_dev.Core.Platform.{Platform}
use earthion_blockchain_dev.Core.Mempool.{
  Mempool, sender_of, ids_of, remove_tx, remove, get, present, get_by_sender,
}
use earthion_blockchain_dev.Core.Mempool.Index.{
  occurrences, is_sender, sent_by, IsSound, Reachable, Reachable-IsSound,
}

-- Remove takes away the transaction with that ID, in hex, and no other.
pub get-remove :
    (id txid : Bytes) (m : Mempool)
    → get id (remove txid m)
      ≡ (if bytes_equal (hex_encode txid) (hex_encode id) then none else get id m)
unfolding get remove remove_tx
get-remove id txid m = elim (Option-cases (lookup (hex_encode txid) m.txs)) [
  | inl e ↦ rw (remove, e) (ground (arith, bytes_equal_iff (hex_encode txid) (hex_encode id)))
  | inr (tx, e) ↦ rw (remove, e) (lookup-erase (hex_encode txid) (hex_encode id) m.txs)
]

occurrences-Elem : (k : Bytes) (ids : List Bytes) → (1 ≤ occurrences k ids) ↔ Elem k ids
occurrences-Elem k [] = (λ h. absurd (omega arith), λ h. elim h [ ])
occurrences-Elem k (j ∷ js) = ground (arith, occurrences-Elem k js, bytes_equal_iff j k)

-- A list holds the transaction if a key in the other list finds it.
abbrev Answers : Transaction → Map Transaction → List Transaction → List Bytes → Type 0
Answers tx txs answer keys = Elem tx answer ↔ ((k : Bytes) × Elem k keys × (lookup k txs ≡ some tx))

present-Elem :
    (tx : Transaction) (txs : Map Transaction) (ids : List Bytes)
    → Elem tx (present txs ids) ↔ ((k : Bytes) × Elem k ids × (lookup k txs ≡ some tx))
unfolding present
present-Elem tx txs [] = (λ h. elim h [ ], λ h. elim (h.1) [ ])
present-Elem tx txs (id ∷ ids) = elim (Option-cases (lookup id txs)) [
  | inl e ↦ rw (present, e) (missing (present-Elem tx txs ids) e)
  | inr (u, e) ↦ rw (present, e) (found (present-Elem tx txs ids) u e)
]
  where
    missing :
        Answers tx txs (present txs ids) ids
        → lookup id txs ≡ none
        → Answers tx txs (present txs ids) (id ∷ ids)
    missing rest e = (
      λ h. let (k, i, l) = rest.0 h in (k, inr i, l),
      λ (k, i, l). elim i [
        | inl same ↦ absurd (cc (e, same, l))
        | inr later ↦ rest.1 (k, later, l)
      ],
    )

    found :
        Answers tx txs (present txs ids) ids
        → (u : Transaction) → lookup id txs ≡ some u
        → Answers tx txs (u ∷ present txs ids) (id ∷ ids)
    found rest u e = (
      λ h. elim h [
        | inl same ↦ (id, inl refl, cc)
        | inr later ↦ (let (k, i, l) = rest.0 later in (k, inr i, l))
      ],
      λ (k, i, l). elim i [ inl same ↦ inl cc | inr later ↦ inr (rest.1 (k, later, l)) ],
    )

is_sender_positive : (s : Bytes) (o : Option Bytes) → (1 ≤ is_sender s o) ↔ (o ≡ some s)
is_sender_positive s none = (λ h. absurd (omega arith), λ h. absurd (cc h))
is_sender_positive s (some t) = ground (arith, bytes_equal_iff t s)

module _ (p : Platform) where
  -- The keys in the list of a sender are those of his transactions.
  ids_of-Elem :
      (m : Mempool) (s k : Bytes)
      → IsSound p m
      → Elem k (ids_of s m.by_sender)
        ↔ ((tx : Transaction) × (lookup k m.txs ≡ some tx) × (sender_of tx ≡ some s))
  ids_of-Elem m s k h = (
    λ i. counted (lookup k m.txs) (subst (λ n. 1 ≤ n) (h.indexed s k) ((occurrences-Elem k _).1 i)),
    λ (tx, l, e). (occurrences-Elem k _).0 (
        subst (λ n. 1 ≤ n) (sym (h.indexed s k))
          (rw l ((is_sender_positive s (sender_of tx)).1 e))),
  )
    where
      counted :
          (o : Option Transaction)
          → 1 ≤ sent_by s o
          → (tx : Transaction) × (o ≡ some tx) × (sender_of tx ≡ some s)
      counted none h = absurd (omega arith)
      counted (some tx) h = (tx, refl, (is_sender_positive s (sender_of tx)).0 h)

  -- In every mempool that calls can make, GetBySender answers exactly the transactions in the pool
  -- whose sender it is asked for: the key of the first input, of a transaction that is no coinbase.
  pub get_by_sender-Elem :
      (m : Mempool) (address : Bytes) (tx : Transaction)
      → Reachable p m
      → Elem tx (get_by_sender address m)
        ↔ ((k : Bytes) × (lookup k m.txs ≡ some tx) × (sender_of tx ≡ some (hex_encode address)))
  unfolding get_by_sender
  get_by_sender-Elem m address tx r =
      let h = Reachable-IsSound p r in
      let s = hex_encode address in
      (
        λ i.
            let (k, e, l) = (present-Elem tx m.txs (ids_of s m.by_sender)).0 i in
            let (u, l', f) = (ids_of-Elem m s k h).0 e in (k, l, cc (l, l', f)),
        λ (k, l, f).
            (present-Elem tx m.txs (ids_of s m.by_sender)).1
              (k, (ids_of-Elem m s k h).1 (tx, l, f), l),
      )
