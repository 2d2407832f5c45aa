-- ===== src/Pool/Accept/Errors.antt =====
-- What a transaction that is not accepted leaves behind.
use mathlib.Core.Path.{subst}
use vcash.Prelude.{ℕ, ◌≡◌, refl, inl, inr, Bool, true, false, Result, ok, err, Bool-cases, [], ◌∷◌}
use vcash.Consensus.Params.{ChainType}
use vcash.Transaction.Types.{Transaction, Digests}
use vcash.Transaction.Aggregate.{Keys}
use vcash.Pool.Types.{PoolEntry, PoolError, Header, Env, TxSource}
use vcash.Pool.Linked.{linked, aggregate-single, tx_eq-reflexive}
use vcash.Pool.Accept.{
  TransactionPool, after, add_to_reorg_cache, add_to_txpool, try_stem, insert_entry, check_tx,
  make_space, accept,
}
use vcash.Pool.Accept.Growth.{Outcome, add_to_txpool-Outcome, try_stem-Stemmed}

-- All is as before but for the stempool, and for that as well if the transaction was not to be stemmed.
pub record IsUnchanged (stem : Bool) (p q : TransactionPool) : Type 0 where
  pub config : q.config ≡ p.config
  pub txpool : q.txpool ≡ p.txpool
  pub reorg_cache : q.reorg_cache ≡ p.reorg_cache
  pub stempool : stem ≡ false → q.stempool ≡ p.stempool

module _ (env : Env) (d : Digests) (single : (tx : Transaction) → env.aggregate (tx ∷ []) ≡ ok tx)
    (same : (tx : Transaction) → env.tx_eq tx tx ≡ true) where
  -- What holds after a call that failed.
  abbrev Safe : Bool → TransactionPool → Result PoolError (Unit {0}) × TransactionPool → Type 0
  Safe stem p (ok u, q) = Unit
  Safe stem p (err e, q) = IsUnchanged stem p q

  fluff-Safe :
      (entry : PoolEntry) (stem : Bool) (p q : TransactionPool)
      (r : Result PoolError (Unit {0}) × TransactionPool)
      → Outcome env d single same q r
      → IsUnchanged stem p q
      → Safe stem p (after r (λ _ q''. (ok tt, add_to_reorg_cache entry q'')))
  fluff-Safe entry stem p q r (inl (grown, (s, g))) u = rw s tt
  fluff-Safe entry stem p q r (inr (x, s)) u = rw s u

  try_stem-IsUnchanged :
      (entry : PoolEntry) (stem : Bool) (header : Header) (p : TransactionPool)
      → IsUnchanged stem p (try_stem env d entry stem header p).1
  try_stem-IsUnchanged entry false header p = record {
    config = refl;
    txpool = refl;
    reorg_cache = refl;
    stempool = λ e. refl;
  }
  try_stem-IsUnchanged entry true header p =
      let (c, (t, k)) = try_stem-Stemmed env d single same entry true header p in
      record { config = c; txpool = t; reorg_cache = k; stempool = λ e. absurd (cc) }

  insert_entry-Safe :
      (entry : PoolEntry) (stem : Bool) (header : Header) (p : TransactionPool)
      → Safe stem p (insert_entry env d entry stem header p)
  insert_entry-Safe entry stem header p =
      let (stemmed, q) = try_stem env d entry stem header p in
      elim (Bool-cases stemmed) [
        | inl done ↦ rw (insert_entry, done) tt
        | inr not_done ↦
            rw (insert_entry, not_done)
              (fluff-Safe entry stem p q (add_to_txpool env d entry header q)
                (add_to_txpool-Outcome env d single same entry header q)
                (try_stem-IsUnchanged entry stem header p))
      ]

  after-Safe :
      (stem evict : Bool) (p : TransactionPool) (r : Result PoolError (Unit {0}) × TransactionPool)
      → Safe stem p r
      → Safe stem p (after r (λ _ q. (ok tt, make_space env d evict q)))
  after-Safe stem evict p (ok u, q) safe = tt
  after-Safe stem evict p (err e, q) safe = safe

  accept-Safe :
      (chain : ChainType) (src : TxSource) (now : ℕ) (tx : Transaction) (stem : Bool)
      (header : Header) (p : TransactionPool)
      → Safe stem p (accept env d chain src now tx stem header p)
  unfolding accept
  accept-Safe chain src now tx stem header p = checked (check_tx env d chain tx stem header p)
    where
      entry : PoolEntry
      entry = record { src = src; tx_at = now; tx = tx }

      checked :
          (r : Result PoolError Bool)
          → Safe stem p (elim r as (λ _. Result PoolError (Unit {0}) × TransactionPool) [
            | err e ↦ (err e, p)
            | ok evict ↦
                after
                  (insert_entry env d entry stem header p)
                  (λ _ p'. (ok tt, make_space env d evict p'))
          ])
      checked (err e) = record {
        config = refl;
        txpool = refl;
        reorg_cache = refl;
        stempool = λ f. refl;
      }
      checked (ok evict) =
          after-Safe stem evict p (insert_entry env d entry stem header p)
            (insert_entry-Safe entry stem header p)

-- A transaction that is not accepted leaves the pool and the cache of a reorganisation as they were; it
-- may have got into the stempool, but only if it was to be stemmed.
pub accept-IsUnchanged :
    (d : Digests) (keys : Keys) (env : Env) (chain : ChainType) (src : TxSource) (now : ℕ)
    (tx : Transaction) (stem : Bool) (header : Header) (p q : TransactionPool) (e : PoolError)
    → accept (linked d keys env) d chain src now tx stem header p ≡ (err e, q)
    → IsUnchanged stem p q
unfolding linked
accept-IsUnchanged d keys env chain src now tx stem header p q e h =
    let single = aggregate-single d keys in
    let same = tx_eq-reflexive d in
    subst (Safe (linked d keys env) d single same stem p) h
      (accept-Safe (linked d keys env) d single same chain src now tx stem header p)
