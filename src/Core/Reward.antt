-- ===== src/Core/Reward.antt =====
-- core/reward.go.
pub mod Supply
use earthion_blockchain_dev.Base.{ℕ, zero, suc, ◌+◌, ◌*◌, ◌/◌, ◌≡◌, refl, ltb, if◌then◌else◌}
use earthion_blockchain_dev.Base.Int.{ℤ, pos, negsuc, add64}

abbrev pub initial_reward : ℕ
initial_reward = 50

abbrev pub halving_interval : ℕ
halving_interval = 210000

abbrev pub min_reward : ℕ
min_reward = 1

-- The loop of `GetBlockReward` over the halvings left, and the test behind it.
pub halve : ℕ → ℕ → ℕ
halve zero reward = if ltb reward min_reward then min_reward else reward
halve (suc n) reward =
    let rest = halve n (reward / 2) in if ltb (reward / 2) min_reward then min_reward else rest

-- `GetBlockReward`: Go's division of a negative height gives no halvings.
unfoldable pub get_block_reward : ℤ → ℕ
unfolding halve
get_block_reward (pos height) = halve (height / halving_interval) initial_reward
get_block_reward (negsuc height) = halve 0 initial_reward

-- The loop of `GetTotalMined`: the rounds left, the next height, the total so far.
pub add_rewards : ℕ → ℕ → ℤ → ℤ
add_rewards zero h total = total
add_rewards (suc n) h total = add_rewards n (h + 1) (add64 total (pos (get_block_reward (pos h))))

-- `GetTotalMined`, at heights below math.MaxInt64, where the loop ends.
unfoldable pub get_total_mined : ℤ → ℤ
unfolding add_rewards
get_total_mined (pos height) = add_rewards (suc height) 0 (pos 0)
get_total_mined (negsuc height) = pos 0

-- `GetMaxSupply`
unfoldable pub get_max_supply : ℤ
get_max_supply = pos (initial_reward * 2 * halving_interval)

first_halving : get_block_reward (pos 210000) ≡ 25
unfolding get_block_reward
first_halving = refl
