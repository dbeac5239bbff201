-- ===== src/Core/Pow.antt =====
-- core/pow.go: the difficulty of the next block, the target, mining and its check.
pub mod Difficulty
pub mod Mine
use earthion_blockchain_dev.Base.{
  ℕ, zero, suc, ◌+◌, ◌-◌, ◌*◌, ◌%◌, ◌^◌, List, [], ◌∷◌, ◌++◌, Option, none, some, Bool, true, false,
  ◌&&◌, ◌||◌, Bytes, bytes_equal, length, get_elem?, ltb, leb, ◌==◌, if◌then◌else◌,
}
use earthion_blockchain_dev.Base.Int.{ℤ, pos, negsuc, sub64, ltb_ℤ, leb_ℤ}
use earthion_blockchain_dev.Crypto.Hash.{double_hash}
use earthion_blockchain_dev.Core.Types.{Transaction, Block}
use earthion_blockchain_dev.Core.Platform.{Platform}
use earthion_blockchain_dev.Core.Utils.{int_to_hex}

abbrev pub initial_difficulty : ℕ
initial_difficulty = 18

abbrev pub target_block_time : ℕ
target_block_time = 10

abbrev pub adjustment_interval : ℕ
adjustment_interval = 10

abbrev pub min_difficulty : ℕ
min_difficulty = 1

abbrev pub max_difficulty : ℕ
max_difficulty = 32

-- `int64(AdjustmentInterval * TargetBlockTime)`
abbrev pub expected_time : ℕ
expected_time = adjustment_interval * target_block_time

-- The comparisons of `ratio := float64(expectedTime) / float64(timeDiff)` with 1.0 and 2.0. The
-- quotient rounds to 1.0 or 2.0 only where it is that number, so that each test is one on the
-- integers; a time difference of zero makes the ratio +Inf, a negative one a negative ratio.
ratio_below_one : ℤ → Bool
ratio_below_one (pos t) = ltb expected_time t
ratio_below_one (negsuc t) = true

ratio_above_two : ℤ → Bool
ratio_above_two (pos t) = ltb (2 * t) expected_time
ratio_above_two (negsuc t) = false

ratio_above_one : ℤ → Bool
ratio_above_one (pos t) = ltb t expected_time
ratio_above_one (negsuc t) = false

-- The difficulty before the bounds: uint32 arithmetic on the difficulty of the last block.
adjust : ℤ → ℕ → ℕ
unfolding ratio_below_one ratio_above_two ratio_above_one
adjust time_diff current =
    if ratio_below_one time_diff
    then (current + 1) % 2 ^ 32
    else if ratio_above_two time_diff
    then (if leb 3 current then current - 2 else if leb 2 current then current - 1 else current)
    else if ratio_above_one time_diff
    then (if leb 2 current then current - 1 else current)
    else current

-- The bounds of a difficulty, as CurrentDifficulty, NewBlock and NewProofOfWork enforce them.
unfoldable pub bound_difficulty : ℕ → ℕ
bound_difficulty d =
    if ltb d min_difficulty
    then min_difficulty
    else if ltb max_difficulty d
    then max_difficulty
    else d

-- From the block ten before the end of the chain and the last one.
unfoldable pub next_difficulty : Block → Block → ℕ
unfolding adjust bound_difficulty
next_difficulty old_block new_block =
    bound_difficulty (adjust (sub64 new_block.timestamp old_block.timestamp) new_block.difficulty)

difficulty_of : Option Block → Option Block → ℕ
unfolding next_difficulty
difficulty_of (some old_block) (some new_block) = next_difficulty old_block new_block
difficulty_of _ _ = initial_difficulty

-- `CurrentDifficulty`. Both indices are in range behind the test.
unfoldable pub current_difficulty : List Block → ℕ
unfolding difficulty_of
current_difficulty chain =
    if ltb (length chain) (adjustment_interval + 1)
    then initial_difficulty
    else difficulty_of (get_elem? chain (length chain - adjustment_interval))
        (get_elem? chain (length chain - 1))

-- The target of `NewProofOfWork`: 1 shifted left by 256 - difficulty.
unfoldable pub target : Block → ℕ
unfolding bound_difficulty
target b =
    2 ^ (256 - bound_difficulty (if b.difficulty == 0 then initial_difficulty else b.difficulty))

-- `hashInt.SetBytes(hash)`: the bytes as a big-endian number behind `n`.
unfoldable pub set_bytes : ℕ → Bytes → ℕ
set_bytes n [] = n
set_bytes n (b ∷ bs) = set_bytes (n * 256 + b) bs

module _ (p : Platform) where
  -- The serialized transactions.
  pub tx_data : List Transaction → Bytes
  tx_data [] = []
  tx_data (tx ∷ txs) = p.encode_tx tx ++ tx_data txs

  -- `prepareData`
  unfoldable pub prepare_data : Block → ℤ → Bytes
  unfolding tx_data
  prepare_data b nonce =
      int_to_hex b.index
      ++ (int_to_hex b.timestamp
          ++ (b.prev_hash
              ++ (b.merkle_root
                  ++ (int_to_hex (pos b.difficulty)
                      ++ (tx_data b.transactions ++ int_to_hex nonce)))))

  -- The hash of a block with a nonce, and whether it is below the target.
  unfoldable pub pow_hash : Block → ℤ → Bytes
  unfolding prepare_data
  pow_hash b nonce = double_hash p.digest (prepare_data b nonce)

  unfoldable pub meets_target : Block → Bytes → Bool
  unfolding target set_bytes
  meets_target b hash = ltb (set_bytes 0 hash) (target b)

  -- The loop of `Run`: the rounds left up to math.MaxInt64, the nonce, the last hash.
  pub mine : ℕ → Block → ℕ → Bytes → ℕ × Bytes
  mine zero b nonce hash = (nonce, hash)
  mine (suc rounds) b nonce hash = elim (meets_target b (pow_hash b (pos nonce))) [
    | true ↦ (nonce, pow_hash b (pos nonce))
    | false ↦ mine rounds b (nonce + 1) (pow_hash b (pos nonce))
  ]

  -- `Run`
  unfoldable pub run_pow : Block → ℕ × Bytes
  unfolding mine
  run_pow b = mine (2 ^ 63 - 1) b 0 []

  -- `Validate` of a proof of work.
  unfoldable pub validate_pow : Block → Bool
  validate_pow b =
      if bytes_equal (pow_hash b b.nonce) b.hash then meets_target b (pow_hash b b.nonce) else false
