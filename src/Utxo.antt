-- ===== src/Utxo.antt =====
-- The set of unspent outputs in chain/src/txhashset: applying a block to it, and checking against it.
pub mod Mmr
pub mod Coins
pub mod Extension
pub mod View
pub mod Range
mod Toy
mod Runs
