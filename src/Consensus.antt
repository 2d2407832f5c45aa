-- ===== src/Consensus.antt =====
-- The consensus rules: core/src/consensus.rs, with the chain parameters of core/src/global.rs
-- and the compact difficulty encoding of core/src/pow/common.rs in the modules below.
pub mod Params
pub mod Reward
pub mod Difficulty
