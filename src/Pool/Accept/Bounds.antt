-- ===== src/Pool/Accept/Bounds.antt =====
-- The sizes of the pool and of the cache of a reorganisation.
use vcash.Prelude.{
  last, filter, ℕ, suc, max, ◌+◌, ◌≤◌, ◌<◌, ◌≡◌, refl, ap, ◌∙◌, inl, inr, Bool, true, false, not,
  ◌&&◌, List, [], ◌∷◌, length, All, Among, Option, none, some, Result, ok, err, fail_if, bind-ok,
  fail_if-ok, arith, ltb, ltb→lt, not_ltb→le, Bool-cases,
}
use vcash.Consensus.Params.{ChainType}
use vcash.Transaction.Types.{Transaction, Digests}
use vcash.Transaction.Body.{no_limit, as_transaction}
use vcash.Transaction.Features.{validate_token_height}
use vcash.Transaction.Aggregate.{Keys}
use vcash.Pool.Linked.{linked, aggregate-single, tx_eq-reflexive}
use vcash.Pool.Types.{
  PoolEntry, PoolError, over_capacity, duplicate_tx, Header, Env, TxSource, lift_tx,
}
use vcash.Pool.Entries.{Pool, all_transactions, contains_tx}
use vcash.Pool.Buckets.{bucket_transactions}
use vcash.Pool.Buckets.Members.{bucket_transactions-last}
use vcash.Pool.Accept.{
  TransactionPool, after, total_size, is_acceptable, may_evict, evict_from_txpool, insert_entry,
  check_tx, make_space, accept, add_to_txpool, reconcile_entries, reconcile_reorg_cache,
}
use vcash.Pool.Accept.Growth.{add_to_txpool-Outcome, Inserted, insert_entry-Inserted}

-- The pool is no larger than it was or than its configured size and one more, and the cache no larger
-- than it was or than the configured size, which stays.
pub record IsBounded (p : TransactionPool) (q : TransactionPool) : Type 0 where
  pub config : q.config ≡ p.config
  pub txpool : length q.txpool ≤ max (length p.txpool) (suc p.config.max_pool_size)
  pub reorg_cache : length q.reorg_cache ≤ max (length p.reorg_cache) p.config.max_pool_size

-- The pool has at most `n` entries more, and the cache is as it was.
pub record IsRefilled (p : TransactionPool) (n : ℕ) (q : TransactionPool) : Type 0 where
  pub config : q.config ≡ p.config
  pub txpool : length q.txpool ≤ length p.txpool + n
  pub reorg_cache : q.reorg_cache ≡ p.reorg_cache

module _ {ℓ} {A : Type ℓ} (test : A → Bool) where
  filter-length : (xs : List A) → length (filter test xs) ≤ length xs
  filter-length [] = omega arith
  filter-length (x ∷ xs) = elim (Bool-cases (test x)) [
    | inl t ↦ rw t (omega (arith, filter-length xs))
    | inr f ↦ rw f (omega (arith, filter-length xs))
  ]

-- Every member is among the list.
Among-weaken {ℓ κ} :
    {A : Type ℓ} {P Q : A → Type κ} → ((x : A) → P x → Q x) → (xs : List A) → All P xs → All Q xs
Among-weaken f [] ps = tt
Among-weaken f (x ∷ xs) (p, ps) = (f x p, Among-weaken f xs ps)

every_element {ℓ} : {A : Type ℓ} (xs : List A) → All (λ x. Among x xs) xs
every_element [] = tt
every_element (x ∷ xs) = (inl refl, Among-weaken (λ y h. inr h) xs (every_element xs))

is_acceptable-space :
    (tx : Transaction) (stem : Bool) (p : TransactionPool)
    → is_acceptable tx stem p ≡ ok tt
    → length p.txpool ≤ p.config.max_pool_size
unfolding is_acceptable
is_acceptable-space tx stem p e = not_ltb→le p.config.max_pool_size (length p.txpool) (
    fail_if-ok (ltb p.config.max_pool_size (total_size p)) over_capacity
      (bind-ok (fail_if (ltb p.config.max_pool_size (total_size p)) over_capacity) _ tt e).1.0)

-- Space is made unless the transaction was acceptable.
may_evict-false :
    (stem : Bool) (r : Result PoolError (Unit {0})) → may_evict stem r ≡ ok false → r ≡ ok tt
may_evict-false stem (ok tt) e = refl
may_evict-false false (err over_capacity) e = absurd (cc)
may_evict-false true (err over_capacity) e = absurd (cc)
may_evict-false stem (err x) e = absurd (cc)

module _ (env : Env) (d : Digests) (single : (tx : Transaction) → env.aggregate (tx ∷ []) ≡ ok tx)
    (same : (tx : Transaction) → env.tx_eq tx tx ≡ true) where
  check_tx-space :
      (chain : ChainType) (tx : Transaction) (stem : Bool) (header : Header) (p : TransactionPool)
      → check_tx env d chain tx stem header p ≡ ok false
      → length p.txpool ≤ p.config.max_pool_size
  unfolding check_tx
  check_tx-space chain tx stem header p e =
      let (u, (e1, k1)) =
        bind-ok (fail_if (not stem && contains_tx env (env.tx_hash tx) p.txpool) duplicate_tx) _
          false e in
      let (evict, (e2, k2)) = bind-ok (may_evict stem (is_acceptable tx stem p)) _ false k1 in
      let (u2, (e3, k3)) =
        bind-ok (lift_tx (validate_token_height chain header.height tx.body)) _ false k2 in
      let (u3, (e4, k4)) = bind-ok (lift_tx (env.validate as_transaction tx)) _ false k3 in
      let (u4, (e5, k5)) = bind-ok (env.verify_tx_lock_height tx) _ false k4 in
      let (u5, (e6, k6)) = bind-ok (env.verify_coinbase_maturity tx) _ false k5 in
      is_acceptable-space tx stem p (may_evict-false stem (is_acceptable tx stem p) (e2 ∙ k6))

  -- Dropping a transaction that is among those of the pool makes the pool smaller.
  dropped :
      (entries : Pool) (tx : Transaction)
      → Among tx (all_transactions entries)
      → length (filter (λ (x : PoolEntry). not (env.tx_eq x.tx tx)) entries) < length entries
  dropped [] tx h = absurd (h.lower)
  dropped (x ∷ xs) tx (inl e) =
      rw (ap (env.tx_eq x.tx) e ∙ same x.tx)
        (omega (arith, filter-length (λ (y : PoolEntry). not (env.tx_eq y.tx tx)) xs))
  dropped (x ∷ xs) tx (inr h) = elim (Bool-cases (env.tx_eq x.tx tx)) [
    | inl t ↦ rw t (omega (arith, dropped xs tx h))
    | inr f ↦ rw f (omega (arith, dropped xs tx h))
  ]

  evicted :
      (p : TransactionPool)
      → 0 < length p.txpool
      → length (evict_from_txpool env d p).txpool < length p.txpool
  unfolding evict_from_txpool
  evicted p lt =
      let txs = all_transactions p.txpool in
      let (all, (tx, (e, h))) =
        bucket_transactions-last env no_limit (λ x. Among x txs) p.txpool lt (every_element txs) in
      rw (evict_from_txpool, e) (dropped p.txpool tx h)

  -- Making space leaves the rest as it was.
  record Evicted (q q' : TransactionPool) : Type 0 where
    config : q'.config ≡ q.config
    reorg_cache : q'.reorg_cache ≡ q.reorg_cache
    txpool : length q'.txpool ≤ length q.txpool

  evict-Evicted : (q : TransactionPool) → Evicted q (evict_from_txpool env d q)
  unfolding evict_from_txpool
  evict-Evicted q = put (last (bucket_transactions env no_limit q.txpool))
    where
      put :
          (o : Option Transaction)
          → Evicted q (elim o [
            | none ↦ q
            | some tx ↦ record q {
              txpool = filter (λ (x : PoolEntry). not (env.tx_eq x.tx tx)) q.txpool;
            }
          ])
      put none = record { config = refl; reorg_cache = refl; txpool = omega arith }
      put (some tx) = record {
        config = refl;
        reorg_cache = refl;
        txpool = filter-length (λ (x : PoolEntry). not (env.tx_eq x.tx tx)) q.txpool;
      }

  evicted-smaller :
      (q : TransactionPool) (n : ℕ)
      → length q.txpool ≤ suc n
      → length (evict_from_txpool env d q).txpool ≤ n
  evicted-smaller q n le = elim (Bool-cases (ltb 0 (length q.txpool))) [
    | inl t ↦ omega (arith, evicted q (ltb→lt 0 (length q.txpool) t))
    | inr f ↦ omega (arith, not_ltb→le 0 (length q.txpool) f, (evict-Evicted q).txpool)
  ]

  Inserted-IsBounded :
      (evict : Bool) (p q : TransactionPool) (r : Result PoolError (Unit {0}))
      → Inserted env d single same p r q
      → (evict ≡ false → length p.txpool ≤ p.config.max_pool_size)
      → IsBounded p (after (r, q) (λ _ p'. (ok tt, make_space env d evict p'))).1
  Inserted-IsBounded evict p q (err e) i space = record {
    config = i.config;
    txpool = omega (arith, i.txpool);
    reorg_cache = i.reorg_cache;
  }
  Inserted-IsBounded false p q (ok u) i space = record {
    config = i.config;
    txpool = omega (arith, i.txpool, space refl);
    reorg_cache = i.reorg_cache;
  }
  Inserted-IsBounded true p q (ok u) i space =
      let g = evict-Evicted q in
      record {
        config = g.config ∙ i.config;
        txpool = omega (arith, evicted-smaller q (length p.txpool) i.txpool);
        reorg_cache = omega (arith, ap (λ (l : Pool). length l) g.reorg_cache, i.reorg_cache);
      }

  lawful-IsBounded :
      (chain : ChainType) (src : TxSource) (now : ℕ) (tx : Transaction) (stem : Bool)
      (header : Header) (p : TransactionPool)
      → IsBounded p (accept env d chain src now tx stem header p).1
  unfolding accept
  lawful-IsBounded chain src now tx stem header p =
      checked (check_tx env d chain tx stem header p) refl
    where
      entry : PoolEntry
      entry = record { src = src; tx_at = now; tx = tx }

      checked :
          (r : Result PoolError Bool)
          → check_tx env d chain tx stem header p ≡ r
          → IsBounded p (
              (elim r as (λ _. Result PoolError (Unit {0}) × TransactionPool) [
                | err e ↦ (err e, p)
                | ok evict ↦
                    after
                      (insert_entry env d entry stem header p)
                      (λ _ p'. (ok tt, make_space env d evict p'))
              ]).1)
      checked (err e) h = record { config = refl; txpool = omega arith; reorg_cache = omega arith }
      checked (ok evict) h =
          Inserted-IsBounded evict p (insert_entry env d entry stem header p).1
            (insert_entry env d entry stem header p).0
            (insert_entry-Inserted env d single same entry stem header p)
            (λ f. check_tx-space chain tx stem header p (h ∙ ap ok f))

  add_to_txpool-IsRefilled :
      (x : PoolEntry) (header : Header) (p : TransactionPool)
      → IsRefilled p 1 (add_to_txpool env d x header p).1
  add_to_txpool-IsRefilled x header p = elim (add_to_txpool-Outcome env d single same x header p) [
    | inl (q, (e, g)) ↦ rw e (record {
      config = g.config;
      txpool = omega (arith, g.txpool);
      reorg_cache = g.reorg_cache;
    })
    | inr (x, e) ↦ rw e (record { config = refl; txpool = omega arith; reorg_cache = refl })
  ]

  reconcile_entries-IsRefilled :
      (xs : List PoolEntry) (header : Header) (p : TransactionPool)
      → IsRefilled p (length xs) (reconcile_entries env d xs header p)
  unfolding reconcile_entries
  reconcile_entries-IsRefilled [] header p = record {
    config = refl;
    txpool = omega arith;
    reorg_cache = refl;
  }
  reconcile_entries-IsRefilled (x ∷ xs) header p =
      let one = add_to_txpool-IsRefilled x header p in
      let rest = reconcile_entries-IsRefilled xs header (add_to_txpool env d x header p).1 in
      record {
        config = rest.config ∙ one.config;
        txpool = omega (arith, rest.txpool, one.txpool);
        reorg_cache = rest.reorg_cache ∙ one.reorg_cache;
      }

-- From any state, a transaction that is offered, accepted or not, leaves the pool no larger than it was
-- or than its configured size and one more, and the cache no larger than it was or than the configured
-- size. Taking up the cache again after a reorganisation, whose entries are added to the pool, makes the
-- pool larger by at most the length of the cache.
pub accept-IsBounded :
    (d : Digests) (keys : Keys) (env : Env) (chain : ChainType) (src : TxSource) (now : ℕ)
    (tx : Transaction) (stem : Bool) (header : Header) (p : TransactionPool)
    → IsBounded p (accept (linked d keys env) d chain src now tx stem header p).1
      × IsRefilled p (length p.reorg_cache) (reconcile_reorg_cache (linked d keys env) d header p)
unfolding linked reconcile_reorg_cache
accept-IsBounded d keys env chain src now tx stem header p = (
  lawful-IsBounded (linked d keys env) d (aggregate-single d keys) (tx_eq-reflexive d) chain src now
      tx stem header p,
  reconcile_entries-IsRefilled (linked d keys env) d (aggregate-single d keys) (tx_eq-reflexive d)
      p.reorg_cache header p,
)
