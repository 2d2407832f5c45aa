-- ===== src/Consensus/Reward.antt =====
-- The block subsidy of core/src/consensus.rs: `reward` and `total_reward`.
pub mod Sum
mod Runs
use vcash.Prelude.{
  ℕ, zero, suc, ◌+◌, ◌*◌, ◌/◌, ◌%◌, Bool, leb, if◌then◌else◌, wrap64, sub64, saturating_add64,
  shr64,
}
use vcash.Consensus.Params.{ChainType, subsidy, halving_interval}

-- The subsidy after a number of halvings, as `reward` guards it.
abbrev pub cur_reward : ℕ → ℕ
cur_reward halvings = if leb 64 halvings then 0 else shr64 subsidy halvings

pub reward : ChainType → ℕ → ℕ → ℕ
unfolding halving_interval
reward c height fee = saturating_add64 (cur_reward (height / halving_interval c)) fee

-- `while i < halvings { total += halving_interval * (REWARD >> i); i += 1 }` on the rounds left.
pub total_loop : ℕ → ℕ → ℕ → ℕ → ℕ
total_loop interval zero i total = total
total_loop interval (suc rounds) i total =
    total_loop interval rounds (i + 1) (wrap64 (total + wrap64 (interval * shr64 subsidy i)))

pub total_reward : ChainType → ℕ → Bool → ℕ
unfolding total_loop halving_interval
total_reward c height genesis_had_reward =
    let interval = halving_interval c in
    let halvings = height / interval in
    let whole = total_loop interval halvings 0 0 in
    let remainder = height % interval in
    let total = wrap64 (whole + wrap64 (shr64 subsidy halvings * (remainder + 1))) in
    if genesis_had_reward then total else sub64 total subsidy

-- The subsidies of the blocks from height 0 up to and with `height`, one by one.
abbrev pub sum_rewards : ChainType → ℕ → ℕ
sum_rewards c zero = reward c zero 0
sum_rewards c (suc h) = sum_rewards c h + reward c (suc h) 0
