-- ===== src/Consensus/Reward/Runs.antt =====
-- Tests of the subsidy.
use vcash.Prelude.{◌+◌, arith, ◌≡◌, refl, true, false}
use vcash.Consensus.Params.{mainnet, halving_interval}
use vcash.Consensus.Reward.{total_reward, reward, sum_rewards}
use vcash.Consensus.Reward.Sum.{total_reward-eq-sum_rewards}

total_reward_two_periods : total_reward mainnet 210001 true ≡ 10500050000000000
unfolding total_reward
total_reward_two_periods = refl

total_reward-eq-sum_rewards_example :
    (total_reward mainnet 3 true ≡ sum_rewards mainnet 3)
    × (total_reward mainnet 3 false + reward mainnet 0 0 ≡ sum_rewards mainnet 3)
unfolding halving_interval
total_reward-eq-sum_rewards_example = total_reward-eq-sum_rewards mainnet 3 (omega arith)
