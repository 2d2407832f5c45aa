-- ===== src/Pool/Accept/Growth.antt =====
-- By how much inserting an entry lets the pools grow.
use vcash.Prelude.{
  is_ok, suc, ◌≤◌, ◌≡◌, refl, sym, ap, ◌∙◌, ◌⊎◌, inl, inr, Bool, true, false, List, [], ◌∷◌, ◌++◌,
  length, length-append, max, ◌-◌, Option, some, Result, ok, err, ◌>>=◌, bind-ok, arith,
  if◌then◌else◌, ltb, not_ltb→le, Bool-cases,
}
use vcash.Transaction.Types.{Transaction, Digests}
use vcash.Transaction.Body.{no_limit}
use vcash.Pool.Types.{PoolConfig, PoolEntry, PoolError, Header, Env}
use vcash.Pool.Entries.{Pool, all_transactions, add_to_pool, all_transactions_aggregate}
use vcash.Pool.Entries.Consistent.{IsAdded, add_to_pool-IsAdded}
use vcash.Pool.Accept.{
  TransactionPool, after, drop_first, add_to_reorg_cache, add_to_stempool, deaggregated_entry,
  reconcile_stempool, add_to_txpool, try_stem, insert_entry,
}

append_nil : {A : Type 0} (xs : List A) → xs ++ [] ≡ xs
append_nil [] = refl
append_nil (x ∷ xs) = ap (◌∷◌ x) (append_nil xs)

all_transactions-append :
    (xs : Pool) (y : PoolEntry)
    → all_transactions (xs ++ (y ∷ [])) ≡ all_transactions xs ++ (y.tx ∷ [])
all_transactions-append [] y = refl
all_transactions-append (x ∷ xs) y = ap (◌∷◌ x.tx) (all_transactions-append xs y)

module _ (env : Env) (d : Digests) (single : (tx : Transaction) → env.aggregate (tx ∷ []) ≡ ok tx)
    (same : (tx : Transaction) → env.tx_eq tx tx ≡ true) where
  nonempty-aggregate :
      (xs : Pool) (y : PoolEntry) (whole : Transaction)
      → env.aggregate (all_transactions (xs ++ (y ∷ []))) ≡ ok whole
      → env.validate no_limit whole ≡ ok tt
      → all_transactions_aggregate env (xs ++ (y ∷ [])) ≡ ok (some whole)
  unfolding all_transactions_aggregate
  nonempty-aggregate [] y whole e v = rw (e, v) refl
  nonempty-aggregate (x ∷ xs) y whole e v = rw (e, v) refl

  -- What was just added to aggregates and validates again.
  added-aggregate :
      (header : Header) (entries : Pool) (x : PoolEntry)
      → IsAdded env [] header entries x
      → (o : Option Transaction) × (all_transactions_aggregate env (entries ++ (x ∷ [])) ≡ ok o)
  added-aggregate header entries x a =
      let e : env.aggregate (all_transactions (entries ++ (x ∷ []))) ≡ ok a.whole =
        ap env.aggregate (
          all_transactions-append entries x
          ∙ ap (λ (l : List Transaction). l ++ (x.tx ∷ []))
              (sym (append_nil (all_transactions entries))))
        ∙ a.aggregated in
      (some a.whole, nonempty-aggregate entries x a.whole e a.body)

  -- What `q` keeps of `p`, with room for one transaction more.
  pub record IsGrown (p : TransactionPool) (q : TransactionPool) : Type 0 where
    pub config : q.config ≡ p.config
    pub reorg_cache : q.reorg_cache ≡ p.reorg_cache
    pub txpool : length q.txpool ≤ suc (length p.txpool)

  abbrev pub Outcome : TransactionPool → Result PoolError (Unit {0}) × TransactionPool → Type 0
  Outcome p r =
      ((q : TransactionPool) × ((r ≡ (ok tt, q)) × IsGrown p q))
      ⊎ ((e : PoolError) × (r ≡ (err e, p)))

  -- `add_to_txpool` fails without any change, or adds one transaction.
  pub add_to_txpool-Outcome :
      (entry : PoolEntry) (header : Header) (p : TransactionPool)
      → Outcome p (add_to_txpool env d entry header p)
  unfolding add_to_txpool
  add_to_txpool-Outcome entry header p =
      added
        (deaggregated_entry env d entry p.txpool >>= λ entry'.
          add_to_pool env entry' [] header p.txpool)
        refl
    where
      added :
          (r : Result PoolError Pool)
          → (deaggregated_entry env d entry p.txpool >>= λ entry'.
              add_to_pool env entry' [] header p.txpool)
            ≡ r
          → Outcome p (elim r [
            | ok txpool ↦ reconcile_stempool env d header (record p { txpool = txpool })
            | err e ↦ (err e, p)
          ])
      added (err e) s = inr (e, refl)
      added (ok txpool) s =
          let (entry', (e1, e2)) = bind-ok (deaggregated_entry env d entry p.txpool) _ txpool s in
          let (split, new) = add_to_pool-IsAdded env single entry' [] header p.txpool txpool e2 in
          let len : length txpool ≤ suc (length p.txpool) =
            omega
              (arith, ap (λ (l : Pool). length l) split, length-append p.txpool (entry' ∷ [])) in
          let (o, agg) = added-aggregate header p.txpool entry' new in
          let whole : all_transactions_aggregate env txpool ≡ ok o =
            ap (all_transactions_aggregate env) split ∙ agg in
          rw (reconcile_stempool, whole)
            (inl (_, (refl, record { config = refl; reorg_cache = refl; txpool = len })))

  -- The cache drops its oldest entry when it is over its size.
  cache-bounded :
      (entry : PoolEntry) (q : TransactionPool)
      → length (add_to_reorg_cache entry q).reorg_cache
        ≤ max (length q.reorg_cache) q.config.max_pool_size
  unfolding add_to_reorg_cache
  cache-bounded entry q =
      let cache = q.reorg_cache ++ (entry ∷ []) in
      let grown : length cache ≡ suc (length q.reorg_cache) =
        omega (arith, length-append q.reorg_cache (entry ∷ [])) in
      elim (Bool-cases (ltb q.config.max_pool_size (length cache))) [
        | inl over ↦ rw over (omega (arith, dropped cache, grown))
        | inr fits ↦ rw fits (omega (arith, not_ltb→le q.config.max_pool_size (length cache) fits))
      ]
    where
      dropped : (xs : List PoolEntry) → length (drop_first xs) ≤ length xs - 1
      dropped [] = omega arith
      dropped (x ∷ xs) = omega arith

  -- Stemming changes the stempool only.
  abbrev pub Stemmed : TransactionPool → TransactionPool → Type 0
  Stemmed p q = (q.config ≡ p.config) × ((q.txpool ≡ p.txpool) × (q.reorg_cache ≡ p.reorg_cache))

  add_to_stempool-Stemmed :
      (entry : PoolEntry) (header : Header) (p : TransactionPool)
      → Stemmed p (add_to_stempool env d entry header p).1
  unfolding add_to_stempool
  add_to_stempool-Stemmed entry header p =
      put (add_to_pool env entry (all_transactions p.txpool) header p.stempool)
    where
      put :
          (r : Result PoolError Pool)
          → Stemmed p (
              (elim r as (λ _. Result PoolError (Unit {0}) × TransactionPool) [
                | ok stempool ↦ (ok tt, record p { stempool = stempool })
                | err e ↦ (err e, p)
              ]).1)
      put (ok stempool) = (refl, (refl, refl))
      put (err e) = (refl, (refl, refl))

  pub try_stem-Stemmed :
      (entry : PoolEntry) (stem : Bool) (header : Header) (p : TransactionPool)
      → Stemmed p (try_stem env d entry stem header p).1
  try_stem-Stemmed entry false header p = (refl, (refl, refl))
  try_stem-Stemmed entry true header p = add_to_stempool-Stemmed entry header p

  -- What the pools may become when an entry is inserted: one transaction more on success, and no
  -- more than before on failure.
  pub record Inserted (p : TransactionPool) (r : Result PoolError (Unit {0})) (q : TransactionPool)
      : Type 0 where
    pub config : q.config ≡ p.config
    pub reorg_cache : length q.reorg_cache ≤ max (length p.reorg_cache) p.config.max_pool_size
    pub txpool : length q.txpool ≤ (if is_ok r then suc (length p.txpool) else length p.txpool)

  fluffed :
      (entry : PoolEntry) (p q : TransactionPool)
      (r : Result PoolError (Unit {0}) × TransactionPool)
      → Stemmed p q
      → Outcome q r
      → let (r', q') = after r (λ _ q''. (ok tt, add_to_reorg_cache entry q'')) in Inserted p r' q'
  unfolding add_to_reorg_cache
  fluffed entry p q r (c, (t, k)) (inl (q', (e, g))) =
      let config = g.config ∙ c in
      let kept = cache-bounded entry q' in
      let cache = ap (λ (l : Pool). length l) (g.reorg_cache ∙ k) in
      rw e (record {
        config = config;
        reorg_cache = omega (arith, kept, cache, ap (λ (x : PoolConfig). x.max_pool_size) config);
        txpool = omega (arith, g.txpool, ap (λ (l : Pool). length l) t);
      })
  fluffed entry p q r (c, (t, k)) (inr (x, e)) = rw e (record {
    config = c;
    reorg_cache = omega (arith, ap (λ (l : Pool). length l) k);
    txpool = omega (arith, ap (λ (l : Pool). length l) t);
  })

  pub insert_entry-Inserted :
      (entry : PoolEntry) (stem : Bool) (header : Header) (p : TransactionPool)
      → let (r, q) = insert_entry env d entry stem header p in Inserted p r q
  insert_entry-Inserted entry stem header p =
      let s = try_stem-Stemmed entry stem header p in
      let (stemmed, q) = try_stem env d entry stem header p in
      elim (Bool-cases stemmed) [
        | inl done ↦
            rw (insert_entry, done)
              (record {
                config = s.0;
                reorg_cache = omega (arith, ap (λ (l : Pool). length l) s.1.1);
                txpool = omega (arith, ap (λ (l : Pool). length l) s.1.0);
              })
        | inr not_done ↦
            rw (insert_entry, not_done)
              (fluffed entry p q (add_to_txpool env d entry header q) s
                (add_to_txpool-Outcome entry header q))
      ]
