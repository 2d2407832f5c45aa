-- ===== src/Pool/Runs.antt =====
-- A small pool, and the theorems of the pool at it.
use vcash.Prelude.{
  last, length, ◌≡◌, ◌≤◌, ◌↔◌, refl, false, [], ◌∷◌, some, ok, err, arith, ◌==◌, if◌then◌else◌,
  Among, All,
}
use vcash.Consensus.Params.{mainnet}
use vcash.Transaction.Types.{Input, Transaction, TxError}
use vcash.Transaction.Body.{no_limit, fee, fold_fees, body_weight, weight_as_block, weight}
use vcash.Transaction.Features.{any, validate_token_height}
use vcash.Transaction.Toy.{toy, toy_keys, payment}
use vcash.Transaction.Aggregate.{Keys, body_eq, aggregate_all, sum_kernel_offsets, join_bodies}
use vcash.Transaction.Aggregate
use vcash.Transaction.Sorting.{sort_unstable}
use vcash.Transaction.CutThrough.{cut_through, cut_lists, cut_loop}
use vcash.Consensus.Params.{support_token_height}
use vcash.Pool.Types.{push_api, broadcast, PoolEntry, PoolConfig, other, Header, Env}
use vcash.Pool.Linked.{linked}
use vcash.Pool.Accept.{
  TransactionPool, accept, check_tx, is_acceptable, add_to_txpool, reconcile_reorg_cache,
  reconcile_entries,
}
use vcash.Pool.Entries.{
  all_transactions, reconcile, reconcile_block, add_to_pool, combined, validate_raw_tx,
  all_transactions_aggregate, reconcile_loop,
}
use vcash.Pool.Entries.Consistent.{IsConsistent, reconcile-IsConsistent}
use vcash.Pool.Entries.Reconcile.{IsUntouched, reconcile_block_iff}
use vcash.Pool.Buckets.{bucket_transactions}
use vcash.Pool.Buckets.Members.{bucket_transactions-last}
use vcash.Pool.Accept.Bounds.{IsBounded, IsRefilled, accept-IsBounded}
use vcash.Pool.Accept.Errors.{IsUnchanged, accept-IsUnchanged}

-- A chain on which nothing but the output 99 has been spent.
abbrev bare : Env
bare = record {
  tx_hash = λ tx. tx.offset;
  tx_eq = λ a b. false;
  aggregate = λ txs. err TxError.secp;
  deaggregate = λ tx txs. err TxError.secp;
  validate = λ weighting tx. ok tt;
  validate_tx =
      λ tx. if any (λ (i : Input). i.commit == 99) tx.body.inputs then err other else ok tt;
  apply_tx_to_block_token_sums = λ tx header. ok tt;
  apply_tx_to_block_sums = λ tx header. ok tt;
  verify_tx_lock_height = λ tx. ok tt;
  verify_coinbase_maturity = λ tx. ok tt;
  chain_head = ok (record { height = 50; hash = 7 });
  stem_tx_accepted = λ entry. ok tt;
}

abbrev chain : Env
chain = linked toy toy_keys bare

abbrev head : Header
head = record { height = 50; hash = 7 }

abbrev entry : Transaction → PoolEntry
entry tx = record { src = broadcast; tx_at = 0; tx = tx }

abbrev config : PoolConfig
config = record {
  accept_fee_base = 1;
  max_pool_size = 1;
  max_stempool_size = 1;
  mineable_max_weight = 1000;
}

abbrev pools : TransactionPool
pools = record {
  config = config;
  txpool = entry (payment 1 11 9) ∷ [];
  stempool = [];
  reorg_cache = [];
}

abbrev spent_twice : Transaction
spent_twice = payment 99 12 9

rejected : accept chain toy mainnet push_api 5 spent_twice false head pools ≡ (err other, pools)
unfolding accept check_tx is_acceptable validate_token_height support_token_height add_to_txpool
    all_transactions_aggregate reconcile reconcile_loop fee fold_fees body_weight weight_as_block
    weight add_to_pool linked combined validate_raw_tx Aggregate.tx_eq body_eq Aggregate.aggregate
    aggregate_all join_bodies cut_through cut_lists cut_loop sort_unstable sum_kernel_offsets
rejected = refl

accept-IsUnchanged_example : IsUnchanged false pools pools
accept-IsUnchanged_example =
    accept-IsUnchanged toy toy_keys bare mainnet push_api 5 spent_twice false head pools pools other
      rejected

abbrev grown : TransactionPool
grown = record pools {
  txpool = entry (payment 1 11 9) ∷ record { src = push_api; tx_at = 5; tx = payment 2 12 9 } ∷ [];
  reorg_cache = record { src = push_api; tx_at = 5; tx = payment 2 12 9 } ∷ [];
}

-- A pool over its size takes a transaction that pays nothing, and makes space.
accept-IsBounded_example :
    IsBounded grown (accept chain toy mainnet push_api 6 (payment 3 13 0) false head grown).1
    × IsRefilled grown 1 (reconcile_reorg_cache chain toy head grown)
accept-IsBounded_example =
    accept-IsBounded toy toy_keys bare mainnet push_api 6 (payment 3 13 0) false head grown

unpaid_when_full : (accept chain toy mainnet push_api 6 (payment 3 13 0) false head grown).0 ≡ ok tt
unfolding accept check_tx is_acceptable validate_token_height support_token_height add_to_txpool
    all_transactions_aggregate reconcile reconcile_loop fee fold_fees body_weight weight_as_block
    add_to_pool linked combined validate_raw_tx Aggregate.tx_eq body_eq Aggregate.aggregate
    aggregate_all join_bodies cut_through cut_lists cut_loop sort_unstable sum_kernel_offsets
unpaid_when_full = refl

-- After a reorganisation that took its transactions out, a pool within its size takes up the whole
-- cache, and is over its size by more than one transaction.
abbrev reorganised : TransactionPool
reorganised = record pools {
  txpool = entry (payment 1 11 9) ∷ entry (payment 2 12 9) ∷ [];
  reorg_cache = entry (payment 3 13 9) ∷ [];
}

refilled : length (reconcile_reorg_cache chain toy head reorganised).txpool ≡ 3
unfolding reconcile_reorg_cache reconcile_entries add_to_txpool all_transactions_aggregate reconcile
    reconcile_loop add_to_pool linked combined validate_raw_tx Aggregate.tx_eq body_eq
    Aggregate.aggregate aggregate_all join_bodies cut_through cut_lists cut_loop sort_unstable
    sum_kernel_offsets
refilled = refl

added :
    add_to_pool chain
      (record { src = push_api; tx_at = 5; tx = payment 2 12 9 })
      []
      head
      pools.txpool
    ≡ ok grown.txpool
unfolding add_to_pool linked combined validate_raw_tx Aggregate.tx_eq body_eq Aggregate.aggregate
    aggregate_all join_bodies cut_through cut_lists cut_loop sort_unstable sum_kernel_offsets
added = refl

reconcile-IsConsistent_example :
    IsConsistent chain grown.txpool
      (payment 4 14 9 ∷ [])
      head
      (reconcile chain (some (payment 4 14 9)) head grown.txpool)
reconcile-IsConsistent_example =
    reconcile-IsConsistent toy toy_keys bare (some (payment 4 14 9)) head grown.txpool

reconcile_block_iff_example :
    Among (entry (payment 1 11 9)) (reconcile_block toy (payment 2 15 9).body grown.txpool) ↔ (
      Among (entry (payment 1 11 9)) grown.txpool
      × IsUntouched toy (payment 2 15 9).body (payment 1 11 9).body)
reconcile_block_iff_example =
    reconcile_block_iff toy (payment 2 15 9).body (entry (payment 1 11 9)) grown.txpool

abbrev Pays : Transaction → Type 0
Pays tx = 5 ≤ fee tx.body

paying : All Pays (all_transactions grown.txpool)
unfolding fee fold_fees
paying = (omega arith, (omega arith, tt))

bucket_transactions-last_example :
    All Pays (bucket_transactions chain no_limit grown.txpool)
    × ((tx : Transaction) × ((last (bucket_transactions chain no_limit grown.txpool) ≡ some tx)
          × Pays tx))
bucket_transactions-last_example =
    bucket_transactions-last chain no_limit Pays grown.txpool (omega arith) paying
