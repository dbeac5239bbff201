-- ===== src/Tests/Mining.antt =====
-- The theorems on mining, difficulty and rewards at concrete inputs.
use Prim.Native.Nat.{max}
use earthion_blockchain_dev.Base.{◌/◌, ◌^◌, ◌≤◌, ◌≡◌, refl, arith}
use earthion_blockchain_dev.Base.Int.{pos, sub64, ◌<ℤ◌}
use earthion_blockchain_dev.Core.Platform.{toy_platform}
use earthion_blockchain_dev.Core.Pow.{next_difficulty, run_pow, meets_target, pow_hash}
use earthion_blockchain_dev.Core.Pow.Mine.{IsFirstWin, run_pow-IsFirstWin}
use earthion_blockchain_dev.Core.Reward.{
  initial_reward, halving_interval, min_reward, get_block_reward, get_total_mined, get_max_supply,
}
use earthion_blockchain_dev.Core.Reward.Supply.{get_block_reward-eq, get_total_mined_exceeds}
use earthion_blockchain_dev.Tests.Samples.{genesis, block_one}
use earthion_blockchain_dev.Crypto.Hash.{double_hash}
use earthion_blockchain_dev.Core.Utils.{int_to_hex}

-- 100 seconds after the genesis block the difficulty stays; 10000 seconds after it, it rises, and
-- 10 seconds after it, it falls.
next_difficulty_runs :
    (next_difficulty genesis block_one ≡ 18)
    × (next_difficulty genesis (record block_one { timestamp = pos 10000 }) ≡ 19)
    × (next_difficulty genesis (record block_one { timestamp = pos 10 }) ≡ 16)
unfolding sub64 next_difficulty
next_difficulty_runs = (refl, refl, refl)

run_pow-IsFirstWin_example :
    IsFirstWin toy_platform block_one 0 (run_pow toy_platform block_one)
    × ((run_pow toy_platform block_one).0 ≤ 5)
unfolding meets_target pow_hash double_hash int_to_hex
run_pow-IsFirstWin_example = run_pow-IsFirstWin toy_platform block_one 5 (omega arith) refl

get_block_reward-eq_example :
    get_block_reward (pos 420000)
    ≡ max min_reward (initial_reward / 2 ^ (420000 / halving_interval))
get_block_reward-eq_example = get_block_reward-eq 420000

get_total_mined_exceeds_example : get_max_supply <ℤ get_total_mined (pos 2000000)
get_total_mined_exceeds_example = get_total_mined_exceeds 2000000 (omega arith) (omega arith)
