-- ===== src/Pool/Types.antt =====
-- The data of pool/src/types.rs, and what the pool calls: the trait `BlockChain`, the adapter that
-- relays stem transactions, and the checks of core/src/core/transaction.rs that need secp256k1.
use vcash.Prelude.{ℕ, Bool, List, Result, ok, err}
use vcash.Transaction.Types.{Transaction, TxError}
use vcash.Transaction.Body.{Weighting}

pub data TxSource : Type 0 where
  push_api broadcast fluff embargo_expired deaggregated : TxSource

pub record PoolEntry : Type 0 where
  pub src : TxSource
  pub tx_at : ℕ
  pub tx : Transaction

pub record PoolConfig : Type 0 where
  pub accept_fee_base : ℕ
  pub max_pool_size : ℕ
  pub max_stempool_size : ℕ
  pub mineable_max_weight : ℕ

pub data PoolError : Type 0 where
  invalid_tx : TxError → PoolError
  immature_transaction : PoolError
  immature_coinbase : PoolError
  dandelion_error : PoolError
  over_capacity : PoolError
  low_fee_transaction : ℕ → PoolError
  duplicate_commitment : PoolError
  duplicate_tx : PoolError
  other : PoolError

-- What the pool reads of a block header.
pub record Header : Type 0 where
  pub height : ℕ
  pub hash : ℕ

-- A pool works over the operations that it calls. `validate` is `Transaction::validate`, whose verifier
-- cache only saves work; the two `apply` checks are the kernel sums on top of the sums of a block.
pub record Env : Type 0 where
  pub tx_hash : Transaction → ℕ
  pub tx_eq : Transaction → Transaction → Bool
  pub aggregate : List Transaction → Result TxError Transaction
  pub deaggregate : Transaction → List Transaction → Result TxError Transaction
  pub validate : Weighting → Transaction → Result TxError (Unit {0})
  pub validate_tx : Transaction → Result PoolError (Unit {0})
  pub apply_tx_to_block_token_sums : Transaction → Header → Result PoolError (Unit {0})
  pub apply_tx_to_block_sums : Transaction → Header → Result PoolError (Unit {0})
  pub verify_tx_lock_height : Transaction → Result PoolError (Unit {0})
  pub verify_coinbase_maturity : Transaction → Result PoolError (Unit {0})
  pub chain_head : Result PoolError Header
  pub stem_tx_accepted : PoolEntry → Result PoolError (Unit {0})

-- `?` on a `transaction::Error`.
abbrev pub lift_tx {ℓ} : {A : Type ℓ} → Result TxError A → Result PoolError A
lift_tx (ok a) = ok a
lift_tx (err e) = err (invalid_tx e)
