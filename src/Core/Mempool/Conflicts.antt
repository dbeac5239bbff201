-- ===== src/Core/Mempool/Conflicts.antt =====
-- core/mempool.go, GetConflicts. The source tells a nil Txid from an empty one, which are one byte
-- string here: which inputs of the transaction, and which inputs of a transaction of the pool, have
-- a nil Txid are two parameters.
use earthion_blockchain_dev.Base.{
  List, [], ◌∷◌, ◌++◌, Bool, true, false, ◌&&◌, Bytes, bytes_equal, bytes_equal_iff, if◌then◌else◌,
  ◌≡◌, ◌↔◌, refl, subst, sym, arith, inl, inr, Bool-cases, Elem, Elem-append, Elem-append_left,
  Elem-append_right,
}
use earthion_blockchain_dev.Base.Int.{eqb_ℤ, eqb_ℤ_iff}
use earthion_blockchain_dev.Base.Map.{Map}
use earthion_blockchain_dev.Core.Types.{TxInput, Transaction}
use earthion_blockchain_dev.Core.Mempool.{Mempool}

module _ (nil_in : TxInput → Bool) (nil_existing : Bytes → TxInput → Bool) where
  -- The tests of the innermost loop, of an input of the transaction and an input of the transaction
  -- that the pool holds under a key.
  unfoldable conflict : Bytes → TxInput → TxInput → Bool
  conflict k i j =
      if nil_in i
      then false
      else if nil_existing k j
      then false
      else bytes_equal i.txid j.txid && eqb_ℤ i.out_index j.out_index

  -- The innermost loop.
  unfoldable conflicts_of_input : Bytes → Transaction → TxInput → List TxInput → List Transaction
  unfolding conflict
  conflicts_of_input k existing i [] = []
  conflicts_of_input k existing i (j ∷ js) =
      let rest = conflicts_of_input k existing i js in
      if conflict k i j then existing ∷ rest else rest

  -- The loop over the inputs of the transaction.
  unfoldable conflicts_of : Bytes → Transaction → List TxInput → List Transaction
  unfolding conflicts_of_input
  conflicts_of k existing [] = []
  conflicts_of k existing (i ∷ is) =
      conflicts_of_input k existing i existing.inputs ++ conflicts_of k existing is

  -- The loop over the pool.
  unfoldable conflicts_in : Transaction → Map Transaction → List Transaction
  unfolding conflicts_of
  conflicts_in tx [] = []
  conflicts_in tx ((k, existing) ∷ rest) = conflicts_of k existing tx.inputs ++ conflicts_in tx rest

  -- `GetConflicts`; `visit` is the order in which the entries of the map are visited.
  unfoldable pub get_conflicts :
      (Map Transaction → Map Transaction) → Transaction → Mempool → List Transaction
  unfolding conflicts_in
  get_conflicts visit tx m = conflicts_in tx (visit m.txs)

  -- Two inputs name the same output, in a Txid that is not nil.
  pub record SameOutput (k : Bytes) (i j : TxInput) : Type 0 where
    pub named : nil_in i ≡ false
    pub named_existing : nil_existing k j ≡ false
    pub same_txid : i.txid ≡ j.txid
    pub same_index : i.out_index ≡ j.out_index

  conflict_iff : (k : Bytes) (i j : TxInput) → (conflict k i j ≡ true) ↔ SameOutput k i j
  unfolding conflict
  conflict_iff k i j = (
    λ h. record {
      named = ground (arith, h);
      named_existing = ground (arith, h);
      same_txid = ground (arith, h, bytes_equal_iff i.txid j.txid);
      same_index = ground (arith, h, eqb_ℤ_iff i.out_index j.out_index);
    },
    λ s. ground (
      arith,
      s.named,
      s.named_existing,
      (bytes_equal_iff i.txid j.txid).1 s.same_txid,
      (eqb_ℤ_iff i.out_index j.out_index).1 s.same_index,
    ),
  )

  -- The transaction under the key names in one of its inputs an output that one of these names.
  abbrev pub Conflicts : Transaction → List TxInput → Bytes → Type 0
  Conflicts e is k = (i : TxInput) × Elem i is × (j : TxInput) × Elem j e.inputs × SameOutput k i j

  conflicts_of_input-Elem :
      (x e : Transaction) (k : Bytes) (i : TxInput) (js : List TxInput)
      → Elem x (conflicts_of_input k e i js)
        ↔ ((x ≡ e) × (j : TxInput) × Elem j js × SameOutput k i j)
  unfolding conflicts_of_input
  conflicts_of_input-Elem x e k i [] = (λ h. elim h [ ], λ (_, _, l, _). elim l [ ])
  conflicts_of_input-Elem x e k i (j ∷ js) =
      let rest = conflicts_of_input-Elem x e k i js in
      elim (Bool-cases (conflict k i j)) [
        | inl c ↦ rw c (
          λ h. elim h [
            | inl same ↦ (same, j, inl refl, (conflict_iff k i j).0 c)
            | inr later ↦ (let (same, j', l, s) = rest.0 later in (same, j', inr l, s))
          ],
          λ h. inl (h.0),
        )
        | inr c ↦ rw c (
          λ h. let (same, j', l, s) = rest.0 h in (same, j', inr l, s),
          λ (same, j', l, s). elim l [
            | inl here ↦
                absurd (cc (c, (conflict_iff k i j).1 (subst (λ t. SameOutput k i t) here s)))
            | inr later ↦ rest.1 (same, j', later, s)
          ],
        )
      ]

  conflicts_of-Elem :
      (x e : Transaction) (k : Bytes) (is : List TxInput)
      → Elem x (conflicts_of k e is) ↔ ((x ≡ e) × Conflicts e is k)
  unfolding conflicts_of
  conflicts_of-Elem x e k [] = (λ h. elim h [ ], λ (_, c). elim (c.1) [ ])
  conflicts_of-Elem x e k (i ∷ is) =
      let first = conflicts_of_input-Elem x e k i e.inputs in
      let rest = conflicts_of-Elem x e k is in
      (
        λ h. elim (Elem-append x (conflicts_of_input k e i e.inputs) (conflicts_of k e is) h) [
          | inl l ↦ (let (same, j, m, s) = first.0 l in (same, (i, inl refl, j, m, s)))
          | inr l ↦
              (let (same, c) = rest.0 l in
                let (i', l', j, m, s) = c in (same, (i', inr l', j, m, s)))
        ],
        λ (same, c).
            let (i', l, j, m, s) = c in
            elim l [
              | inl here ↦
                  Elem-append_left x _ _
                    (first.1 (same, j, m, subst (λ t. SameOutput k t j) here s))
              | inr later ↦ Elem-append_right x _ _ (rest.1 (same, (i', later, j, m, s)))
            ],
      )

  conflicts_in-Elem :
      (x tx : Transaction) (txs : Map Transaction)
      → Elem x (conflicts_in tx txs) ↔ ((k : Bytes) × Elem (k, x) txs × Conflicts x tx.inputs k)
  unfolding conflicts_in
  conflicts_in-Elem x tx [] = (λ h. elim h [ ], λ (_, l, _). elim l [ ])
  conflicts_in-Elem x tx ((k, e) ∷ txs) =
      let first = conflicts_of-Elem x e k tx.inputs in
      let rest = conflicts_in-Elem x tx txs in
      (
        λ h. elim (Elem-append x (conflicts_of k e tx.inputs) (conflicts_in tx txs) h) [
          | inl l ↦
              (let (same, c) = first.0 l in
                (k, inl (cc same), subst (λ t. Conflicts t tx.inputs k) (sym same) c))
          | inr l ↦ (let (k', l', c) = rest.0 l in (k', inr l', c))
        ],
        λ (k', l, c). elim l [
          | inl here ↦ Elem-append_left x _ _ (first.1 (cc here, at here c))
          | inr later ↦ Elem-append_right x _ _ (rest.1 (k', later, c))
        ],
      )
    where
      at :
          {k' : Bytes}
          → ◌≡◌ {A = Bytes × Transaction} (k', x) (k, e)
          → Conflicts x tx.inputs k'
          → Conflicts e tx.inputs k
      at here c = subst (λ t. Conflicts (t.1) tx.inputs (t.0)) here c

  -- GetConflicts, in whatever order the map of the pool is visited: it returns exactly the
  -- transactions of the pool that spend, in one of their inputs, an output that an input of the
  -- given transaction spends, where both name it in a Txid that is not nil.
  pub get_conflicts_iff :
      (visit : Map Transaction → Map Transaction) (x tx : Transaction) (m : Mempool)
      → ((k : Bytes) → Elem (k, x) (visit m.txs) ↔ Elem (k, x) m.txs)
      → Elem x (get_conflicts visit tx m)
        ↔ ((k : Bytes) × Elem (k, x) m.txs × Conflicts x tx.inputs k)
  unfolding get_conflicts
  get_conflicts_iff visit x tx m h =
      let found = conflicts_in-Elem x tx (visit m.txs) in
      (λ l. let (k, e, c) = found.0 l in (k, (h k).0 e, c), λ (k, e, c). found.1 (k, (h k).1 e, c))
