-- ===== src/Core/Fork.antt =====
-- core/blockchain.go, fork handling: orphaned blocks, alternative chains, reorganisation.
pub mod Reorg
pub mod Resolve
use earthion_blockchain_dev.Base.{
  ℕ, zero, suc, ◌+◌, List, [], ◌∷◌, ◌++◌, Option, none, some, Bool, true, false, bytes_equal,
  length, last?, leb, ltb, if◌then◌else◌, ◌&&◌,
}
use earthion_blockchain_dev.Base.Int.{ℤ, pos, add64}
use earthion_blockchain_dev.Base.Outcome.{Outcome, returns, panics}
use earthion_blockchain_dev.Core.Types.{Block}
use earthion_blockchain_dev.Core.Platform.{Platform}
use earthion_blockchain_dev.Core.Pow.{validate_pow}
use earthion_blockchain_dev.Core.Chain.{Blockchain, rebuild_index}

-- `TotalWork`
pub add_work : List Block → ℤ → ℤ
add_work [] work = work
add_work (b ∷ bs) work = add_work bs (add64 work (pos b.difficulty))

unfoldable pub total_work : Blockchain → ℤ
unfolding add_work
total_work bc = add_work bc.blocks (pos 0)

-- `AddOrphanedBlock`, `AddAlternativeChain`
unfoldable pub add_orphaned_block : Block → Blockchain → Blockchain
add_orphaned_block b bc = record bc { orphaned = bc.orphaned ++ b ∷ [] }

unfoldable pub add_alternative_chain : List Block → Blockchain → Blockchain
add_alternative_chain blocks bc = record bc { alt_chains = bc.alt_chains ++ blocks ∷ [] }

-- The switch of `AttemptReorg` to another chain.
unfoldable pub switch_to : List Block → Blockchain → Blockchain
switch_to alt bc =
    rebuild_index (record bc { blocks = alt; orphaned = bc.orphaned ++ bc.blocks; alt_chains = [] })

module _ (p : Platform) where
  -- The proofs of work of an alternative chain.
  pub all_valid : List Block → Bool
  all_valid [] = true
  all_valid (b ∷ bs) = if validate_pow p b then all_valid bs else false

  -- The loop of `AttemptReorg` over the alternatives.
  pub try_chains : List (List Block) → Blockchain → Blockchain × Bool
  unfolding all_valid
  try_chains [] bc = (bc, false)
  try_chains (alt ∷ alts) bc =
      let rest = try_chains alts bc in
      if leb (length alt) (length bc.blocks)
      then rest
      else if all_valid alt
      then (switch_to alt bc, true)
      else rest

  -- `AttemptReorg`
  unfoldable pub attempt_reorg : Blockchain → Blockchain × Bool
  unfolding try_chains
  attempt_reorg bc = try_chains bc.alt_chains bc

-- The variables of the loop of `ResolveForks`.
pub record Resolving : Type 0 where
  pub blocks : List Block
  pub tip : Block
  pub incorporated : ℕ
  pub remaining : List Block

-- One round: the block is put on the tip that it links to, or kept.
pub connect : Block → Resolving → Resolving
connect b s =
    if bytes_equal b.prev_hash s.tip.hash
    then record s { blocks = s.blocks ++ b ∷ []; tip = b; incorporated = s.incorporated + 1 }
    else record s { remaining = s.remaining ++ b ∷ [] }

pub connect_all : List Block → Resolving → Resolving
unfolding connect
connect_all [] s = s
connect_all (b ∷ bs) s = connect_all bs (connect b s)

-- What follows the loop.
pub finish : Resolving → Blockchain → Blockchain × ℕ
finish s bc =
    let bc' = record bc { blocks = s.blocks; orphaned = s.remaining } in
    (if ltb 0 s.incorporated then rebuild_index bc' else bc', s.incorporated)

-- `ResolveForks`: the tip of an empty chain is out of range.
unfoldable pub resolve_forks : Blockchain → Outcome (Blockchain × ℕ)
unfolding connect_all finish
resolve_forks bc = elim (last? bc.blocks) [
  | none ↦ panics
  | some tip ↦ returns (
      finish
        (connect_all bc.orphaned
          (record { blocks = bc.blocks; tip = tip; incorporated = 0; remaining = [] }))
        bc)
]
