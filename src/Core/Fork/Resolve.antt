-- ===== src/Core/Fork/Resolve.antt =====
-- ResolveForks: what it moves, and that the chain stays linked.
use earthion_blockchain_dev.Base.{
  ℕ, ◌+◌, List, [], ◌∷◌, ◌++◌, append_assoc, append-nil, none, some, bytes_equal, bytes_equal_iff,
  length, last?, last?-append, ltb, ◌≡◌, ◌≢◌, inl, inr, refl, sym, subst, ◌∙◌, arith, Bool-cases,
  Option-cases,
}
use earthion_blockchain_dev.Base.Outcome.{returns}
use earthion_blockchain_dev.Core.Types.{Block}
use earthion_blockchain_dev.Core.Chain.{Blockchain, rebuild_index}
use earthion_blockchain_dev.Core.Chain.Index.{IsIndexed, rebuild_index-IsIndexed}
use earthion_blockchain_dev.Core.Fork.{Resolving, connect, connect_all, finish, resolve_forks}

-- Each block links to the block before it.
abbrev pub IsLinked : List Block → Type 0
IsLinked [] = Unit
IsLinked (a ∷ []) = Unit
IsLinked (a ∷ b ∷ bs) = (b.prev_hash ≡ a.hash) × IsLinked (b ∷ bs)

pub IsLinked-append :
    (bs : List Block) (tip b : Block)
    → last? bs ≡ some tip
    → b.prev_hash ≡ tip.hash
    → IsLinked bs
    → IsLinked (bs ++ b ∷ [])
IsLinked-append [] tip b e l h = absurd (cc e)
IsLinked-append (a ∷ []) tip b e l h = (cc (e, l), tt)
IsLinked-append (a ∷ c ∷ bs) tip b e l h = (h.0, IsLinked-append (c ∷ bs) tip b e l h.1)

-- Which orphans connect to a tip, in one pass: a block whose previous hash is the hash of the tip
-- connects, and is the tip for the blocks behind it; a block whose previous hash is another stays.
pub data Connects : Block → List Block → List Block → List Block → Type 0 where
  done : {tip : Block} → Connects tip [] [] []
  joins :
      {tip b : Block} {orphans added kept : List Block}
      → b.prev_hash ≡ tip.hash
      → Connects b orphans added kept
      → Connects tip (b ∷ orphans) (b ∷ added) kept
  stays :
      {tip b : Block} {orphans added kept : List Block}
      → b.prev_hash ≢ tip.hash
      → Connects tip orphans added kept
      → Connects tip (b ∷ orphans) added (b ∷ kept)

-- What the loop over `orphans` does to its variables.
pub record IsResolved (orphans : List Block) (s t : Resolving) : Type 0 where
  pub added : List Block
  pub kept : List Block
  pub divided : Connects s.tip orphans added kept
  pub chain : t.blocks ≡ s.blocks ++ added
  pub rest : t.remaining ≡ s.remaining ++ kept
  pub counted : t.incorporated ≡ s.incorporated + length added
  pub linked : last? s.blocks ≡ some s.tip → IsLinked s.blocks → IsLinked t.blocks

-- The state after a block is put on the tip, and after one is kept.
abbrev on_tip : Block → Resolving → Resolving
on_tip b s = record s { blocks = s.blocks ++ b ∷ []; tip = b; incorporated = s.incorporated + 1 }

abbrev put_aside : Block → Resolving → Resolving
put_aside b s = record s { remaining = s.remaining ++ b ∷ [] }

IsResolved-on_tip :
    (b : Block) (bs : List Block) (s t : Resolving)
    → b.prev_hash ≡ s.tip.hash
    → IsResolved bs (on_tip b s) t
    → IsResolved (b ∷ bs) s t
IsResolved-on_tip b bs s t links r = record {
  added = b ∷ r.added;
  kept = r.kept;
  divided = joins links r.divided;
  chain = r.chain ∙ append_assoc s.blocks (b ∷ []) r.added;
  rest = r.rest;
  counted = omega (arith, r.counted);
  linked = λ e h. r.linked (last?-append s.blocks b) (IsLinked-append s.blocks s.tip b e links h);
}

IsResolved-put_aside :
    (b : Block) (bs : List Block) (s t : Resolving)
    → b.prev_hash ≢ s.tip.hash
    → IsResolved bs (put_aside b s) t
    → IsResolved (b ∷ bs) s t
IsResolved-put_aside b bs s t other r = record {
  added = r.added;
  kept = b ∷ r.kept;
  divided = stays other r.divided;
  chain = r.chain;
  rest = r.rest ∙ append_assoc s.remaining (b ∷ []) r.kept;
  counted = r.counted;
  linked = r.linked;
}

connect_all-IsResolved :
    (orphans : List Block) (s : Resolving) → IsResolved orphans s (connect_all orphans s)
unfolding connect_all connect
connect_all-IsResolved [] s = record {
  added = [];
  kept = [];
  divided = done;
  chain = sym (append-nil s.blocks);
  rest = sym (append-nil s.remaining);
  counted = omega arith;
  linked = λ e h. h;
}
connect_all-IsResolved (b ∷ bs) s = elim (Bool-cases (bytes_equal b.prev_hash s.tip.hash)) [
  | inl links ↦ rw links (
      IsResolved-on_tip b bs s (connect_all bs (on_tip b s))
        ((bytes_equal_iff b.prev_hash s.tip.hash).0 links) (connect_all-IsResolved bs (on_tip b s)))
  | inr other ↦ rw other (
      IsResolved-put_aside b bs s (connect_all bs (put_aside b s))
        (λ e. absurd (cc (other, (bytes_equal_iff b.prev_hash s.tip.hash).1 e)))
        (connect_all-IsResolved bs (put_aside b s)))
]

-- What ResolveForks does to a chain: the orphans that connect to its tip are put on the chain, the
-- others stay; the number of the former is returned; a linked chain stays linked, and the indices
-- are right if they were.
pub record IsForkResult (bc bc' : Blockchain) (count : ℕ) : Type 0 where
  pub tip : Block
  pub added : List Block
  pub at_tip : last? bc.blocks ≡ some tip
  pub divided : Connects tip bc.orphaned added bc'.orphaned
  pub chain : bc'.blocks ≡ bc.blocks ++ added
  pub counted : count ≡ length added
  pub linked : IsLinked bc.blocks → IsLinked bc'.blocks
  pub indexed : IsIndexed bc → IsIndexed bc'

IsForkResult-parts :
    (bc bc' : Blockchain) (t : Resolving) (tip : Block)
    → last? bc.blocks ≡ some tip
    → IsResolved bc.orphaned
        (record { blocks = bc.blocks; tip = tip; incorporated = 0; remaining = [] })
        t
    → bc'.blocks ≡ t.blocks
    → bc'.orphaned ≡ t.remaining
    → (IsIndexed bc → IsIndexed bc')
    → IsForkResult bc bc' t.incorporated
IsForkResult-parts bc bc' t tip e r same_blocks same_orphans indexed = record {
  tip = tip;
  added = r.added;
  at_tip = e;
  divided =
      subst (λ os. Connects tip bc.orphaned r.added os) (sym (same_orphans ∙ r.rest)) r.divided;
  chain = same_blocks ∙ r.chain;
  counted = omega (arith, r.counted);
  linked = λ h. subst IsLinked (sym same_blocks) (r.linked e h);
  indexed = indexed;
}

IsIndexed-same_blocks :
    (bc : Blockchain) (bs os : List Block)
    → bc.blocks ≡ bs
    → IsIndexed bc
    → IsIndexed (record bc { blocks = bs; orphaned = os })
IsIndexed-same_blocks bc bs os e h =
    subst (λ xs. IsIndexed (record bc { blocks = xs; orphaned = os })) e
      (record {
        block_entries = h.block_entries;
        block_found = h.block_found;
        tx_entries = h.tx_entries;
        tx_found = h.tx_found;
      })

no_added : (bs added : List Block) → length added ≡ 0 → bs ≡ bs ++ added
no_added bs [] e = sym (append-nil bs)
no_added bs (b ∷ added) e = absurd (omega arith)

finish-IsForkResult :
    (bc : Blockchain) (t : Resolving) (tip : Block)
    → last? bc.blocks ≡ some tip
    → IsResolved bc.orphaned
        (record { blocks = bc.blocks; tip = tip; incorporated = 0; remaining = [] })
        t
    → let r = finish t bc in IsForkResult bc r.0 r.1
unfolding finish
finish-IsForkResult bc t tip e r = elim (Bool-cases (ltb 0 t.incorporated)) [
  | inl some_added ↦ rw some_added (
      IsForkResult-parts bc (rebuild_index moved) t tip e r (unfold rebuild_index in refl)
        (unfold rebuild_index in refl) (λ h. rebuild_index-IsIndexed moved))
  | inr none_added ↦ rw none_added (
      IsForkResult-parts bc moved t tip e r refl refl (
        IsIndexed-same_blocks bc t.blocks t.remaining
          (no_added bc.blocks r.added (ground (arith, r.counted)) ∙ sym r.chain)))
]
  where
    moved : Blockchain
    moved = record bc { blocks = t.blocks; orphaned = t.remaining }

-- On a chain that is not empty ResolveForks does not panic. It goes once through the orphans, in
-- their order: one whose previous hash is the hash of the tip is put on top of the chain and is the
-- tip from then on, every other one stays an orphan. It returns the number of blocks put on top; a
-- linked chain stays linked, and indices that are right stay right.
pub resolve_forks-IsForkResult :
    (bc : Blockchain)
    → bc.blocks ≢ []
    → (bc' : Blockchain) × (count : ℕ) × (resolve_forks bc ≡ returns (bc', count))
      × IsForkResult bc bc' count
unfolding resolve_forks
resolve_forks-IsForkResult bc ne = elim (Option-cases (last? bc.blocks)) [
  | inl empty ↦ absurd (ne (last?_none bc.blocks empty))
  | inr (tip, e) ↦
      let s : Resolving = record {
        blocks = bc.blocks;
        tip = tip;
        incorporated = 0;
        remaining = [];
      } in
      let t = connect_all bc.orphaned s in
      (
        (finish t bc).0,
        (finish t bc).1,
        rw (e, resolve_forks) refl,
        finish-IsForkResult bc t tip e (connect_all-IsResolved bc.orphaned s),
      )
]
  where
    last?_none : (bs : List Block) → last? bs ≡ none → bs ≡ []
    last?_none [] h = refl
    last?_none (b ∷ []) h = absurd (cc h)
    last?_none (b ∷ c ∷ bs) h = absurd (last?_cons c bs h)
      where
        last?_cons : (d : Block) (ds : List Block) → last? (d ∷ ds) ≡ none → ⊥
        last?_cons d [] p = cc
        last?_cons d (f ∷ ds) p = last?_cons f ds p
