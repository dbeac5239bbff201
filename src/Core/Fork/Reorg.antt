-- ===== src/Core/Fork/Reorg.antt =====
-- When AttemptReorg switches, and to what.
use earthion_blockchain_dev.Base.{
  ◌<◌, List, [], ◌∷◌, ◌++◌, Bool, true, false, length, leb, ◌≡◌, inl, inr, refl, ap, arith, All,
  Bool-cases,
}
use earthion_blockchain_dev.Core.Types.{Block}
use earthion_blockchain_dev.Core.Platform.{Platform}
use earthion_blockchain_dev.Core.Pow.{validate_pow}
use earthion_blockchain_dev.Core.Chain.{Blockchain, rebuild_index}
use earthion_blockchain_dev.Core.Chain.Index.{IsIndexed, rebuild_index-IsIndexed}
use earthion_blockchain_dev.Core.Fork.{switch_to, all_valid, try_chains, attempt_reorg}

module _ (p : Platform) where
  -- A longer chain whose blocks all have a valid proof of work.
  abbrev pub IsBetter : Blockchain → List Block → Type 0
  IsBetter bc alt = (length bc.blocks < length alt) × All (λ b. validate_pow p b ≡ true) alt

  -- The chain that an attempt switches to: the first better alternative, with the old chain put
  -- among the orphans, no alternative left and the indices right.
  pub record IsSwitch (alts : List (List Block)) (bc bc' : Blockchain) : Type 0 where
    pub skipped : List (List Block)
    pub others : List (List Block)
    pub taken : alts ≡ skipped ++ bc'.blocks ∷ others
    pub first : All (λ alt. ¬ (IsBetter bc alt)) skipped
    pub better : IsBetter bc bc'.blocks
    pub old_kept : bc'.orphaned ≡ bc.orphaned ++ bc.blocks
    pub no_alternatives : bc'.alt_chains ≡ []
    pub indexed : IsIndexed bc'

  -- The result of an attempt: a switch, or no alternative is better and nothing changes.
  abbrev pub IsReorg : List (List Block) → Blockchain → Blockchain × Bool → Type 0
  IsReorg alts bc (bc', false) = (bc' ≡ bc) × All (λ alt. ¬ (IsBetter bc alt)) alts
  IsReorg alts bc (bc', true) = IsSwitch alts bc bc'

  all_valid_iff_true :
      (bs : List Block) → all_valid p bs ≡ true → All (λ b. validate_pow p b ≡ true) bs
  unfolding all_valid
  all_valid_iff_true [] h = tt
  all_valid_iff_true (b ∷ bs) h = ground (arith, all_valid_iff_true bs)

  all_valid_iff_false :
      (bs : List Block) → all_valid p bs ≡ false → ¬ (All (λ b. validate_pow p b ≡ true) bs)
  unfolding all_valid
  all_valid_iff_false [] h a = cc
  all_valid_iff_false (b ∷ bs) h (v, a) = all_valid_iff_false bs (ground arith) a

  IsReorg-cons :
      (alt : List Block) (alts : List (List Block)) (bc : Blockchain) (r : Blockchain × Bool)
      → ¬ (IsBetter bc alt)
      → IsReorg alts bc r
      → IsReorg (alt ∷ alts) bc r
  IsReorg-cons alt alts bc (bc', false) no_better h = (h.0, (no_better, h.1))
  IsReorg-cons alt alts bc (bc', true) no_better h = record {
    skipped = alt ∷ h.skipped;
    others = h.others;
    taken = ap (◌∷◌ alt) h.taken;
    first = (no_better, h.first);
    better = h.better;
    old_kept = h.old_kept;
    no_alternatives = h.no_alternatives;
    indexed = h.indexed;
  }

  switch_to-IsSwitch :
      (alt : List Block) (alts : List (List Block)) (bc : Blockchain)
      → IsBetter bc alt
      → IsSwitch (alt ∷ alts) bc (switch_to alt bc)
  unfolding switch_to
  switch_to-IsSwitch alt alts bc h = record {
    skipped = [];
    others = alts;
    taken = unfold rebuild_index in refl;
    first = tt;
    better = unfold rebuild_index in h;
    old_kept = unfold rebuild_index in refl;
    no_alternatives = unfold rebuild_index in refl;
    indexed =
        rebuild_index-IsIndexed
          (record bc { blocks = alt; orphaned = bc.orphaned ++ bc.blocks; alt_chains = [] });
  }

  try_chains-IsReorg :
      (alts : List (List Block)) (bc : Blockchain) → IsReorg alts bc (try_chains p alts bc)
  unfolding try_chains
  try_chains-IsReorg [] bc = (refl, tt)
  try_chains-IsReorg (alt ∷ alts) bc = step (try_chains-IsReorg alts bc)
    where
      step :
          IsReorg alts bc (try_chains p alts bc)
          → IsReorg (alt ∷ alts) bc (try_chains p (alt ∷ alts) bc)
      step rest = elim (Bool-cases (leb (length alt) (length bc.blocks))) [
        | inl short ↦
            rw (short, try_chains)
              (IsReorg-cons alt alts bc (try_chains p alts bc) (λ b. absurd (ground (arith, b.0)))
                rest)
        | inr long ↦ elim (Bool-cases (all_valid p alt)) [
          | inl valid ↦
              rw (long, valid, try_chains)
                (switch_to-IsSwitch alt alts bc (ground arith, all_valid_iff_true alt valid))
          | inr invalid ↦
              rw (long, invalid, try_chains)
                (IsReorg-cons alt alts bc (try_chains p alts bc)
                  (λ b. all_valid_iff_false alt invalid b.1) rest)
        ]
      ]

  -- AttemptReorg switches to the first alternative chain that is longer and whose blocks all pass
  -- the proof of work, whether or not they link to one another; the old chain goes to the orphans,
  -- the alternatives are cleared, and the indices are right. Without one it changes nothing.
  pub attempt_reorg-IsReorg : (bc : Blockchain) → IsReorg bc.alt_chains bc (attempt_reorg p bc)
  unfolding attempt_reorg
  attempt_reorg-IsReorg bc = try_chains-IsReorg bc.alt_chains bc
