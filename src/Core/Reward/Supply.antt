-- ===== src/Core/Reward/Supply.antt =====
-- The reward of every height in closed form, and the total against the announced maximum.
use Prim.Native.Nat.{max}
use native.Mathlib.Numerals.{add-one}
use earthion_blockchain_dev.Base.{
  ℕ, zero, suc, ◌+◌, ◌-◌, ◌*◌, ◌/◌, ◌^◌, ◌≤◌, ◌<◌, ◌≡◌, refl, ap, subst, arith, ltb, Bool-cases,
  inl, inr,
}
use earthion_blockchain_dev.Base.Int.{pos, add64-pos, ◌<ℤ◌}
use native.Mathlib.Nat.{add-zero, add-suc, pow-succ', div-div-eq-div-mul, zero-div, div-le_self}
use earthion_blockchain_dev.Core.Reward.{
  halve, get_block_reward, add_rewards, get_total_mined, get_max_supply, halving_interval,
  initial_reward, min_reward,
}

-- The plain sum of the rewards of the heights below `n`.
unfoldable pub rewards_below : ℕ → ℕ
rewards_below zero = 0
rewards_below (suc n) = rewards_below n + get_block_reward (pos n)

halve-eq : (n r : ℕ) → halve n r ≡ max min_reward (r / 2 ^ n)
unfolding halve
halve-eq zero r = ground arith
halve-eq (suc n) r =
    rw (pow-succ' 2 n, ← div-div-eq-div-mul r 2 (2 ^ n))
      (elim (Bool-cases (ltb (r / 2) min_reward)) [
        | inl small ↦
            let z : r / 2 ≡ 0 = ground arith in rw (small, z) (ground (arith, zero-div (2 ^ n)))
        | inr large ↦ rw large (halve-eq n (r / 2))
      ])

-- At every height the reward is the initial reward halved once for each interval passed, and never
-- less than the minimum reward.
pub get_block_reward-eq :
    (h : ℕ)
    → get_block_reward (pos h) ≡ max min_reward (initial_reward / 2 ^ (h / halving_interval))
unfolding get_block_reward
get_block_reward-eq h = halve-eq (h / halving_interval) initial_reward

pub reward_bounds : (h : ℕ) → (1 ≤ get_block_reward (pos h)) × (get_block_reward (pos h) ≤ 50)
reward_bounds h =
    rw get_block_reward-eq (omega (arith, div-le_self 50 (2 ^ (h / halving_interval))))

pub rewards_below-suc : (n : ℕ) → rewards_below (suc n) ≡ rewards_below n + get_block_reward (pos n)
unfolding rewards_below
rewards_below-suc n = refl

-- The rewards of `n` heights from `start`, all `c`.
rewards_below-era :
    (start c n : ℕ)
    → ((i : ℕ) → i < n → get_block_reward (pos (start + i)) ≡ c)
    → rewards_below (start + n) ≡ rewards_below start + n * c
rewards_below-era start c zero h = rw add-zero (omega arith)
rewards_below-era start c (suc n) h =
    rw
      (
        add-suc start n,
        rewards_below-suc (start + n),
        h n (omega arith),
        rewards_below-era start c n (λ i lt. h i (omega arith)),
      )
      (omega arith)

era_reward :
    (k c h i : ℕ)
    → h ≡ k * halving_interval
    → i < halving_interval
    → halve k 50 ≡ c
    → get_block_reward (pos (h + i)) ≡ c
unfolding get_block_reward
era_reward k c h i e lt p = let q : (h + i) / halving_interval ≡ k = omega arith in rw q p

-- The five intervals in which the reward falls from 50 to 3.
five_eras : rewards_below 1050000 ≡ 20160000
unfolding halve
five_eras = omega (
  arith,
  rewards_below-zero,
  rewards_below-era 0 50 210000 (λ i lt. era_reward 0 50 0 i refl lt refl),
  rewards_below-era 210000 25 210000 (λ i lt. era_reward 1 25 210000 i refl lt refl),
  rewards_below-era 420000 12 210000 (λ i lt. era_reward 2 12 420000 i refl lt refl),
  rewards_below-era 630000 6 210000 (λ i lt. era_reward 3 6 630000 i refl lt refl),
  rewards_below-era 840000 3 210000 (λ i lt. era_reward 4 3 840000 i refl lt refl),
)
  where
    rewards_below-zero : rewards_below 0 ≡ 0
    rewards_below-zero = unfold rewards_below in refl

-- Each further height adds at least the minimum reward.
rewards_below_grows : (start n : ℕ) → rewards_below start + n ≤ rewards_below (start + n)
rewards_below_grows start zero = simp add-zero (omega arith)
rewards_below_grows start (suc n) = rw (add-suc start n) (
    omega (
      arith,
      rewards_below-suc (start + n),
      reward_bounds (start + n),
      rewards_below_grows start n,
    ))

rewards_below-le : (n : ℕ) → rewards_below n ≤ 50 * n
unfolding rewards_below
rewards_below-le zero = omega arith
rewards_below-le (suc n) = omega (arith, reward_bounds n, rewards_below-le n)

add_rewards-eq :
    (n h k : ℕ)
    → h + n ≡ k
    → k < 2 ^ 57
    → add_rewards n h (pos (rewards_below h)) ≡ pos (rewards_below k)
unfolding add_rewards
add_rewards-eq zero h k e lt = ap (λ (m : ℕ). pos (rewards_below m)) (omega arith)
add_rewards-eq (suc n) h k e lt =
    rw
      (
        add64-pos (rewards_below h) (get_block_reward (pos h))
            (omega (arith, rewards_below-le h, reward_bounds h)),
        ← rewards_below-suc h,
        ← add-one h,
      )
      (add_rewards-eq n (h + 1) k (omega arith) lt)

-- GetTotalMined is the sum of the rewards of the heights 0 to `h`: nothing wraps around below
-- height 2^57 - 1.
pub get_total_mined-eq :
    (h : ℕ) → suc h < 2 ^ 57 → get_total_mined (pos h) ≡ pos (rewards_below (suc h))
unfolding get_total_mined rewards_below
get_total_mined-eq h lt = add_rewards-eq (suc h) 0 (suc h) (omega arith) lt

-- At every height from 1890000 to 2^57 - 2 GetTotalMined reports more coins than GetMaxSupply says
-- can ever exist, as the reward never falls below the minimum.
pub get_total_mined_exceeds :
    (h : ℕ) → 1890000 ≤ h → suc h < 2 ^ 57 → get_max_supply <ℤ get_total_mined (pos h)
unfolding get_max_supply
get_total_mined_exceeds h lo hi = rw (get_total_mined-eq h hi) (
    let e : 1050000 + (suc h - 1050000) ≡ suc h = omega arith in
    let grown =
      subst (λ m. rewards_below 1050000 + (suc h - 1050000) ≤ rewards_below m) e
        (rewards_below_grows 1050000 (suc h - 1050000)) in
    omega (arith, five_eras))
