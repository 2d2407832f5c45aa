-- ===== src/Pool/Entries.antt =====
-- `Pool` of pool/src/pool.rs: its entries in the order of insertion. An operation returns the pool
-- that it leaves; one that fails leaves the pool as it was.
pub mod Reconcile
pub mod Consistent
use vcash.Prelude.{
  is_ok, find, filter, ℕ, zero, suc, ◌+◌, Bool, true, false, not, ◌&&◌, ◌||◌, List, [], ◌∷◌, ◌++◌,
  map, length, Option, none, some, Result, ok, err, fail_if, ◌>>=◌, ◌>>◌, ◌==◌, if◌then◌else◌,
}
use vcash.Transaction.Types.{
  Transaction, TransactionBody, TxKernel, TokenTxKernel, Input, TokenInput, Digests, input_hash,
  token_input_hash,
}
use vcash.Transaction.Body.{Weighting, no_limit, as_limited_transaction}
use vcash.Transaction.Features.{any}
use vcash.Pool.Types.{PoolEntry, PoolError, duplicate_tx, Header, Env, lift_tx}

abbrev pub Pool : Type 0
Pool = List PoolEntry

abbrev pub tx_of : Option PoolEntry → Option Transaction
tx_of none = none
tx_of (some x) = some x.tx

abbrev pub all_transactions : Pool → List Transaction
all_transactions entries = map (λ (x : PoolEntry). x.tx) entries

abbrev pub size : Pool → ℕ
size entries = length entries

abbrev pub kernel_count : Pool → ℕ
kernel_count [] = 0
kernel_count (x ∷ xs) = length x.tx.body.kernels + kernel_count xs

module _ (env : Env) where
  abbrev pub contains_tx : ℕ → Pool → Bool
  contains_tx hash entries = any (λ (x : PoolEntry). env.tx_hash x.tx == hash) entries

  abbrev pub get_tx : ℕ → Pool → Option Transaction
  get_tx hash entries = tx_of (find (λ (x : PoolEntry). env.tx_hash x.tx == hash) entries)

  unfoldable pub validate_raw_tx : Transaction → Header → Weighting → Result PoolError (Unit {0})
  validate_raw_tx tx header weighting = do
    lift_tx (env.validate weighting tx)
    env.validate_tx tx
    env.apply_tx_to_block_token_sums tx header
    env.apply_tx_to_block_sums tx header

  abbrev pub optional : Option Transaction → List Transaction
  optional none = []
  optional (some tx) = tx ∷ []

  -- The loop of `validate_raw_txs`, on the transactions that were found valid so far.
  unfoldable pub validate_loop :
      List Transaction
      → List Transaction
      → Option Transaction
      → Header
      → Weighting
      → Result PoolError (List Transaction)
  validate_loop valid [] extra header weighting = ok valid
  validate_loop valid (tx ∷ txs) extra header weighting = do
    agg_tx ← lift_tx (env.aggregate (optional extra ++ (valid ++ (tx ∷ []))))
    validate_loop
        (if is_ok (validate_raw_tx agg_tx header weighting) then valid ++ (tx ∷ []) else valid) txs
        extra header weighting

  unfoldable pub validate_raw_txs :
      List Transaction
      → Option Transaction
      → Header
      → Weighting
      → Result PoolError (List Transaction)
  validate_raw_txs txs extra header weighting = validate_loop [] txs extra header weighting

  unfoldable pub all_transactions_aggregate : Pool → Result PoolError (Option Transaction)
  all_transactions_aggregate [] = ok none
  all_transactions_aggregate (x ∷ xs) = do
    tx ← lift_tx (env.aggregate (all_transactions (x ∷ xs)))
    lift_tx (env.validate no_limit tx)
    ok (some tx)

  -- The transaction that the checks of `add_to_pool` are made on.
  unfoldable pub combined : List Transaction → Transaction → Result PoolError Transaction
  combined [] tx = ok tx
  combined (other ∷ txs) tx = lift_tx (env.aggregate ((other ∷ txs) ++ (tx ∷ [])))

  unfoldable pub add_to_pool : PoolEntry → List Transaction → Header → Pool → Result PoolError Pool
  add_to_pool entry extra_txs header entries =
      let txs = all_transactions entries in
      do
        fail_if (any (λ tx. env.tx_eq tx entry.tx) txs) duplicate_tx
        agg_tx ← combined (txs ++ extra_txs) entry.tx
        validate_raw_tx agg_tx header no_limit
        ok (entries ++ (entry ∷ []))

  abbrev pub kept : Result PoolError Pool → Pool → Pool
  kept (ok entries) before = entries
  kept (err e) before = before

  -- The entries are taken out and added again one by one; those that fail are dropped.
  unfoldable pub reconcile_loop : List PoolEntry → List Transaction → Header → Pool → Pool
  reconcile_loop [] extra_txs header entries = entries
  reconcile_loop (x ∷ xs) extra_txs header entries =
      reconcile_loop xs extra_txs header (kept (add_to_pool x extra_txs header entries) entries)

  unfoldable pub reconcile : Option Transaction → Header → Pool → Pool
  reconcile extra_tx header entries = reconcile_loop entries (optional extra_tx) header []

module _ (d : Digests) where
  abbrev pub shares {ℓ} : {A : Type ℓ} → (A → ℕ) → List A → List A → Bool
  shares hash xs ys = any (λ x. any (λ y. hash y == hash x) ys) xs

  abbrev pub unspent_coins : TransactionBody → PoolEntry → Bool
  unspent_coins block x =
      not (shares d.kernel x.tx.body.kernels block.kernels)
      && not (shares (input_hash d) x.tx.body.inputs block.inputs)

  abbrev pub unspent_tokens : TransactionBody → PoolEntry → Bool
  unspent_tokens block x =
      not (shares d.token_kernel x.tx.body.token_kernels block.token_kernels)
      && not (shares (token_input_hash d) x.tx.body.token_inputs block.token_inputs)

  -- `retain`, once for the coins and once for the tokens.
  unfoldable pub reconcile_block : TransactionBody → Pool → Pool
  reconcile_block block entries =
      filter (unspent_tokens block) (filter (unspent_coins block) entries)

  -- The kernels of an entry are a subset of those given.
  unfoldable pub find_matching_transactions : List TxKernel → Pool → List Transaction
  find_matching_transactions kernels entries = all_transactions (
      filter
        (λ (x : PoolEntry).
          not (any (λ k. not (any (λ l. d.kernel l == d.kernel k) kernels)) x.tx.body.kernels))
        entries)

  unfoldable pub retrieve_tx_by_kernel_hash : ℕ → Pool → Option Transaction
  retrieve_tx_by_kernel_hash hash entries =
      tx_of (find (λ (x : PoolEntry). any (λ k. d.kernel k == hash) x.tx.body.kernels) entries)
