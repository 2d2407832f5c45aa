-- ===== src/Pool/Accept.antt =====
-- `TransactionPool` of pool/src/transaction_pool.rs. A method returns its result and the state that it
-- leaves, since a call that fails may have changed the pools before.
pub mod Growth
pub mod Bounds
pub mod Errors
pub mod Checks
use vcash.Prelude.{
  is_ok, last, filter, ℕ, zero, suc, ◌+◌, ◌*◌, Bool, true, false, not, ◌&&◌, ◌||◌, List, [], ◌∷◌,
  ◌++◌, map, length, Option, none, some, Result, ok, err, fail_if, ◌>>=◌, ◌>>◌, ltb, ◌==◌,
  if◌then◌else◌, wrap64,
}
use vcash.Consensus.Params.{ChainType}
use vcash.Transaction.Types.{Transaction, TransactionBody, TxError, Digests}
use vcash.Transaction.Body.{Weighting, as_transaction, no_limit, fee, body_weight}
use vcash.Transaction.Features.{validate_token_height}
use vcash.Pool.Types.{
  PoolEntry, PoolConfig, PoolError, duplicate_tx, over_capacity, low_fee_transaction, TxSource,
  deaggregated, Header, Env, lift_tx,
}
use vcash.Pool.Entries.{
  Pool, all_transactions, size, contains_tx, add_to_pool, reconcile, reconcile_block,
  all_transactions_aggregate, find_matching_transactions, optional,
}
use vcash.Pool.Entries
use vcash.Pool.Buckets.{bucket_transactions}

pub record TransactionPool : Type 0 where
  pub config : PoolConfig
  pub txpool : Pool
  pub stempool : Pool
  pub reorg_cache : List PoolEntry

abbrev pub Action : Type 0 → Type 0
Action A = TransactionPool → Result PoolError A × TransactionPool

abbrev pub after :
    {A : Type 0} {B : Type 0}
    → Result PoolError A × TransactionPool
    → (A → Action B)
    → Result PoolError B × TransactionPool
after (ok a, p) k = k a p
after (err e, p) k = (err e, p)

abbrev pub total_size : TransactionPool → ℕ
total_size p = size p.txpool

unfoldable pub is_acceptable : Transaction → Bool → TransactionPool → Result PoolError (Unit {0})
is_acceptable tx stem p =
    let threshold = wrap64 (body_weight tx.body * p.config.accept_fee_base) in
    do
      fail_if (ltb p.config.max_pool_size (total_size p)) over_capacity
      fail_if
          ((stem && ltb p.config.max_stempool_size (size p.stempool))
            || ltb p.config.max_pool_size (total_size p))
          over_capacity
      fail_if (ltb 0 p.config.accept_fee_base && ltb (fee tx.body) threshold)
          (low_fee_transaction threshold)

abbrev pub drop_first {ℓ} : {A : Type ℓ} → List A → List A
drop_first [] = []
drop_first (x ∷ xs) = xs

unfoldable pub add_to_reorg_cache : PoolEntry → TransactionPool → TransactionPool
add_to_reorg_cache entry p =
    let cache = p.reorg_cache ++ (entry ∷ []) in
    record p {
      reorg_cache = if ltb p.config.max_pool_size (length cache) then drop_first cache else cache;
    }

-- The entries at the front that are older than the cutoff are dropped.
abbrev pub drop_older : ℕ → List PoolEntry → List PoolEntry
drop_older cutoff [] = []
drop_older cutoff (x ∷ xs) =
    let rest = drop_older cutoff xs in if ltb x.tx_at cutoff then rest else x ∷ xs

unfoldable pub truncate_reorg_cache : ℕ → TransactionPool → TransactionPool
truncate_reorg_cache cutoff p = record p { reorg_cache = drop_older cutoff p.reorg_cache }

-- -- A full pool makes space for a transaction that is not stemmed.
abbrev pub may_evict : Bool → Result PoolError (Unit {0}) → Result PoolError Bool
may_evict stem (ok _) = ok false
may_evict false (err over_capacity) = ok true
may_evict stem (err e) = err e

module _ (env : Env) (d : Digests) where
  unfoldable pub evict_from_txpool : TransactionPool → TransactionPool
  evict_from_txpool p = elim (last (bucket_transactions env no_limit p.txpool)) [
    | none ↦ p
    | some tx ↦ record p { txpool = filter (λ (x : PoolEntry). not (env.tx_eq x.tx tx)) p.txpool }
  ]

  unfoldable pub add_to_stempool : PoolEntry → Header → Action (Unit {0})
  add_to_stempool entry header p =
      elim (add_to_pool env entry (all_transactions p.txpool) header p.stempool) [
        | ok stempool ↦ (ok tt, record p { stempool = stempool })
        | err e ↦ (err e, p)
      ]

  -- The first step of `add_to_txpool`.
  abbrev pub deaggregated_entry : PoolEntry → Pool → Result PoolError PoolEntry
  deaggregated_entry entry entries =
      if ltb 1 (length entry.tx.body.kernels)
      then elim (find_matching_transactions d entry.tx.body.kernels entries) [
        | [] ↦ ok entry
        | other ∷ txs ↦ (do
          tx ← lift_tx (env.deaggregate entry.tx (other ∷ txs))
          lift_tx (env.validate as_transaction tx)
          ok (record entry { tx = tx; src = deaggregated }))
      ]
      else ok entry

  abbrev pub reconcile_stempool : Header → Action (Unit {0})
  reconcile_stempool header p = elim (all_transactions_aggregate env p.txpool) [
    | ok txpool_tx ↦ (ok tt, record p { stempool = reconcile env txpool_tx header p.stempool })
    | err e ↦ (err e, p)
  ]

  unfoldable pub add_to_txpool : PoolEntry → Header → Action (Unit {0})
  add_to_txpool entry header p =
      elim (deaggregated_entry entry p.txpool >>= λ entry'.
      add_to_pool env entry' [] header p.txpool) [
        | ok txpool ↦ reconcile_stempool header (record p { txpool = txpool })
        | err e ↦ (err e, p)
      ]

  -- An entry that cannot be stemmed is fluffed.
  abbrev pub try_stem : PoolEntry → Bool → Header → TransactionPool → Bool × TransactionPool
  try_stem entry false header p = (false, p)
  try_stem entry true header p =
      let (r, p') = add_to_stempool entry header p in
      (is_ok (r >>= λ _. env.stem_tx_accepted entry), p')

  abbrev pub insert_entry : PoolEntry → Bool → Header → Action (Unit {0})
  insert_entry entry stem header p =
      let (stemmed, p') = try_stem entry stem header p in
      elim stemmed [
        | true ↦ (ok tt, p')
        | false ↦
            after (add_to_txpool entry header p') (λ _ p''. (ok tt, add_to_reorg_cache entry p''))
      ]

  -- The checks before anything is changed; their value says whether to make space afterwards.
  unfoldable pub check_tx :
      ChainType → Transaction → Bool → Header → TransactionPool → Result PoolError Bool
  check_tx chain tx stem header p = do
    fail_if (not stem && contains_tx env (env.tx_hash tx) p.txpool) duplicate_tx
    evict ← may_evict stem (is_acceptable tx stem p)
    lift_tx (validate_token_height chain header.height tx.body)
    lift_tx (env.validate as_transaction tx)
    env.verify_tx_lock_height tx
    env.verify_coinbase_maturity tx
    ok evict

  abbrev pub make_space : Bool → TransactionPool → TransactionPool
  make_space true p = evict_from_txpool p
  make_space false p = p

  unfoldable pub accept : ChainType → TxSource → ℕ → Transaction → Bool → Header → Action (Unit {0})
  accept chain src now tx stem header p = elim (check_tx chain tx stem header p) [
    | err e ↦ (err e, p)
    | ok evict ↦
        after (insert_entry (record { src = src; tx_at = now; tx = tx }) stem header p)
          (λ _ p'. (ok tt, make_space evict p'))
  ]

  unfoldable pub reconcile_entries : List PoolEntry → Header → TransactionPool → TransactionPool
  reconcile_entries [] header p = p
  reconcile_entries (x ∷ xs) header p = reconcile_entries xs header ((add_to_txpool x header p).1)

  unfoldable pub reconcile_reorg_cache : Header → TransactionPool → TransactionPool
  reconcile_reorg_cache header p = reconcile_entries p.reorg_cache header p

  unfoldable pub reconcile_with_block : TransactionBody → Header → Action (Unit {0})
  reconcile_with_block block header p = reconcile_stempool header (record p {
    txpool = reconcile env none header (reconcile_block d block p.txpool);
    stempool = reconcile_block d block p.stempool;
  })
