-- ===== src/Consensus/Params.antt =====
-- core/src/global.rs and the constants of core/src/consensus.rs. The chain type, which the code
-- keeps behind a lock, is an argument.
use vcash.Prelude.{ℕ, ◌+◌, ◌*◌, ◌/◌, Bool, true, false}

pub data ChainType : Type 0 where
  automated_testing user_testing floonet mainnet : ChainType

abbrev pub grin_base : ℕ
grin_base = 1_000_000_000

abbrev pub block_time_sec : ℕ
block_time_sec = 600

abbrev pub subsidy : ℕ
subsidy = 50 * grin_base

abbrev pub hour_height : ℕ
hour_height = 3600 / block_time_sec

abbrev pub day_height : ℕ
day_height = 24 * hour_height

abbrev pub week_height : ℕ
week_height = 7 * day_height

abbrev pub year_height : ℕ
year_height = 52 * week_height

abbrev pub max_block_weight_const : ℕ
max_block_weight_const = 100_000

abbrev pub difficulty_adjust_window : ℕ
difficulty_adjust_window = week_height * 2

abbrev pub block_time_window : ℕ
block_time_window = difficulty_adjust_window * block_time_sec

unfoldable pub halving_interval : ChainType → ℕ
halving_interval mainnet = 210000
halving_interval _ = day_height

unfoldable pub support_token_height : ChainType → ℕ
support_token_height floonet = 160
support_token_height mainnet = 45_120
support_token_height _ = 0

unfoldable pub refactor_header_height : ChainType → ℕ
refactor_header_height floonet = 170
refactor_header_height mainnet = 45_120 + 720
refactor_header_height _ = 0

unfoldable pub min_bit_diff : ChainType → ℕ
min_bit_diff floonet = 0x1b01cc26
min_bit_diff mainnet = 0x18120f14
min_bit_diff _ = 0x2100ffff

unfoldable pub coinbase_maturity : ChainType → ℕ
coinbase_maturity automated_testing = 3
coinbase_maturity user_testing = 3
coinbase_maturity _ = day_height

unfoldable pub max_block_weight : ChainType → ℕ
max_block_weight automated_testing = 150
max_block_weight user_testing = 150
max_block_weight floonet = max_block_weight_const
max_block_weight mainnet = max_block_weight_const

unfoldable pub cut_through_horizon : ChainType → ℕ
cut_through_horizon automated_testing = 20
cut_through_horizon user_testing = 70
cut_through_horizon floonet = 70
cut_through_horizon mainnet = week_height

unfoldable pub state_sync_threshold : ChainType → ℕ
state_sync_threshold mainnet = 2 * day_height
state_sync_threshold _ = 20

unfoldable pub txhashset_archive_interval : ChainType → ℕ
txhashset_archive_interval mainnet = 12 * 60
txhashset_archive_interval _ = 10

unfoldable pub is_production_mode : ChainType → Bool
is_production_mode floonet = true
is_production_mode mainnet = true
is_production_mode _ = false
