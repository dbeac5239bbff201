-- ===== src/Core/Pow/Difficulty.antt =====
-- The difficulty stays in its bounds, and which way it moves.
use native.Mathlib.Nat.{pow-le-pow_right}
use earthion_blockchain_dev.Base.{
  ℕ, ◌-◌, ◌^◌, ◌≤◌, List, Option, none, some, length, get_elem?, arith, ◌==◌, if◌then◌else◌,
}
use earthion_blockchain_dev.Base.Int.{sub64}
use earthion_blockchain_dev.Core.Types.{Block}
use earthion_blockchain_dev.Core.Pow.{
  min_difficulty, max_difficulty, adjust, bound_difficulty, next_difficulty, difficulty_of,
  current_difficulty, target, initial_difficulty,
}

-- The bounds, stated for the functions that enforce them.
pub bound_difficulty_range :
    (d : ℕ) → (min_difficulty ≤ bound_difficulty d) × (bound_difficulty d ≤ max_difficulty)
unfolding bound_difficulty
bound_difficulty_range d = ground arith

difficulty_of_range :
    (a b : Option Block)
    → (min_difficulty ≤ difficulty_of a b) × (difficulty_of a b ≤ max_difficulty)
unfolding difficulty_of next_difficulty
difficulty_of_range (some a) (some b) =
    bound_difficulty_range (adjust (sub64 b.timestamp a.timestamp) b.difficulty)
difficulty_of_range (some a) none = omega arith
difficulty_of_range none b = omega arith

-- For every chain the difficulty of the next block lies between 1 and 32.
current_difficulty_range :
    (chain : List Block)
    → (min_difficulty ≤ current_difficulty chain) × (current_difficulty chain ≤ max_difficulty)
unfolding current_difficulty
current_difficulty_range chain = ground (
  arith,
  difficulty_of_range (get_elem? chain (length chain - 10)) (get_elem? chain (length chain - 1)),
)

-- Whatever difficulty a block carries, its target lies between 2^224 and 2^255.
pub target_range : (b : Block) → (2 ^ 224 ≤ target b) × (target b ≤ 2 ^ 255)
unfolding target
target_range b =
    let d =
      bound_difficulty_range (if b.difficulty == 0 then initial_difficulty else b.difficulty) in
    (
      pow-le-pow_right (omega arith) {i = 224} (omega arith),
      pow-le-pow_right (omega arith) {j = 255} (omega arith),
    )
