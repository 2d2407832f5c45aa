-- ===== src/Pool/Entries/Consistent.antt =====
-- A consistent pool: it is built up of its entries one by one, each on those before it.
use vcash.Prelude.{
  ap, ◌∙◌, bind-ok, fail_if-ok, ok-injective, ◌≡◌, refl, sym, inl, inr, Bool, true, false, List, [],
  ◌∷◌, ◌++◌, All, Option, Result, ok, err, fail_if, ◌>>=◌, ◌>>◌, Bool-cases,
}
use mathlib.Core.Path.{subst}
use vcash.Transaction.Types.{Transaction, TxError, Digests}
use vcash.Transaction.Body.{no_limit}
use vcash.Transaction.Features.{any}
use vcash.Transaction.Aggregate.{Keys}
use vcash.Pool.Types.{PoolEntry, PoolError, duplicate_tx, Header, Env, lift_tx}
use vcash.Pool.Linked.{linked, aggregate-single}
use vcash.Pool.Entries.{
  Pool, all_transactions, validate_raw_tx, combined, add_to_pool, kept, reconcile_loop, reconcile,
  optional,
}

pub lift_tx-ok : {A : Type 0} (r : Result TxError A) (a : A) → lift_tx r ≡ ok a → r ≡ ok a
lift_tx-ok (ok b) a e = ap ok (ok-injective b a e)
lift_tx-ok (err x) a e = absurd (cc)

tests_false :
    {A : Type 0} (test : A → Bool) (xs : List A)
    → any test xs ≡ false
    → All (λ x. test x ≡ false) xs
tests_false test [] e = tt
tests_false test (x ∷ xs) e = elim (Bool-cases (test x)) [
  | inl t ↦ let wrong : true ≡ false = rw t at e in absurd (cc)
  | inr f ↦ (f, tests_false test xs (rw f at e))
]

any-false :
    {A : Type 0} (test : A → Bool) (xs : List A)
    → All (λ x. test x ≡ false) xs
    → any test xs ≡ false
any-false test [] all = refl
any-false test (x ∷ xs) (f, all) = rw f (any-false test xs all)

module _ (env : Env) where
  -- An entry on those before it: it equals none of them, and all of these transactions, the extra
  -- ones and its own aggregate to one transaction, which passes the checks of its body, against the
  -- outputs of the chain, and of the token sums and the sums on top of the block.
  pub record IsAdded (extra : List Transaction) (header : Header) (before : Pool) (x : PoolEntry)
      : Type 0 where
    pub fresh : All (λ tx. env.tx_eq tx x.tx ≡ false) (all_transactions before)
    pub whole : Transaction
    pub aggregated : env.aggregate ((all_transactions before ++ extra) ++ (x.tx ∷ [])) ≡ ok whole
    pub body : env.validate no_limit whole ≡ ok tt
    pub on_chain : env.validate_tx whole ≡ ok tt
    pub token_sums : env.apply_tx_to_block_token_sums whole header ≡ ok tt
    pub sums : env.apply_tx_to_block_sums whole header ≡ ok tt

  -- A pool that is empty, or an entry that was added to such a pool.
  pub data IsBuilt (extra : List Transaction) (header : Header) : Pool → Type 0 where
    empty : IsBuilt extra header []
    added :
        {before : Pool} {x : PoolEntry}
        → IsBuilt extra header before
        → IsAdded extra header before x
        → IsBuilt extra header (before ++ (x ∷ []))

  -- Of the given entries in turn, each is added exactly if it can be, on those added before it.
  pub data IsChosen (extra : List Transaction) (header : Header)
      : List PoolEntry → Pool → Pool → Type 0 where
    done : {so_far : Pool} → IsChosen extra header [] so_far so_far
    taken :
        {x : PoolEntry} {xs : List PoolEntry} {so_far after : Pool}
        → IsAdded extra header so_far x
        → IsChosen extra header xs (so_far ++ (x ∷ [])) after
        → IsChosen extra header (x ∷ xs) so_far after
    left_out :
        {x : PoolEntry} {xs : List PoolEntry} {so_far after : Pool}
        → (IsAdded extra header so_far x → ⊥)
        → IsChosen extra header xs so_far after
        → IsChosen extra header (x ∷ xs) so_far after

  -- The pool is built up, of those of the given entries that can be added in turn.
  pub record IsConsistent (entries : Pool) (extra : List Transaction) (header : Header)
      (after : Pool) : Type 0 where
    pub built : IsBuilt extra header after
    pub chosen : IsChosen extra header entries [] after

module _ (env : Env) (single : (tx : Transaction) → env.aggregate (tx ∷ []) ≡ ok tx) where
  combined-aggregate :
      (txs : List Transaction) (tx whole : Transaction)
      → combined env txs tx ≡ ok whole
      → env.aggregate (txs ++ (tx ∷ [])) ≡ ok whole
  unfolding combined
  combined-aggregate [] tx whole e = single tx ∙ ap ok (ok-injective _ _ e)
  combined-aggregate (x ∷ xs) tx whole e =
      lift_tx-ok (env.aggregate ((x ∷ xs) ++ (tx ∷ []))) whole e

  -- An entry that is added stands last.
  pub add_to_pool-IsAdded :
      (entry : PoolEntry) (extra : List Transaction) (header : Header) (entries after : Pool)
      → add_to_pool env entry extra header entries ≡ ok after
      → (after ≡ entries ++ (entry ∷ [])) × IsAdded env extra header entries entry
  unfolding add_to_pool validate_raw_tx
  add_to_pool-IsAdded entry extra header entries after e =
      let txs = all_transactions entries in
      let equal = λ (tx : Transaction). env.tx_eq tx entry.tx in
      let stored = λ (agg : Transaction).
        validate_raw_tx env agg header no_limit >> ok (entries ++ (entry ∷ [])) in
      let (a, (e1, k1)) =
        bind-ok (fail_if (any equal txs) duplicate_tx)
          (λ _. combined env (txs ++ extra) entry.tx >>= stored) after e in
      let (whole, (e2, k2)) = bind-ok (combined env (txs ++ extra) entry.tx) stored after k1 in
      let (b, (e3, k3)) =
        bind-ok (validate_raw_tx env whole header no_limit) (λ _. ok (entries ++ (entry ∷ [])))
          after k2 in
      let (u1, (c1, r1)) = bind-ok (lift_tx (env.validate no_limit whole)) _ b e3 in
      let (u2, (c2, r2)) = bind-ok (env.validate_tx whole) _ b r1 in
      let (u3, (c3, c4)) = bind-ok (env.apply_tx_to_block_token_sums whole header) _ b r2 in
      (
        sym (ok-injective _ _ k3),
        record {
          fresh = tests_false equal txs (fail_if-ok (any equal txs) duplicate_tx e1);
          whole = whole;
          aggregated = combined-aggregate (txs ++ extra) entry.tx whole e2;
          body = lift_tx-ok (env.validate no_limit whole) tt c1;
          on_chain = c2;
          token_sums = c3;
          sums = c4;
        },
      )

  aggregate-combined :
      (txs : List Transaction) (tx whole : Transaction)
      → env.aggregate (txs ++ (tx ∷ [])) ≡ ok whole
      → combined env txs tx ≡ ok whole
  unfolding combined
  aggregate-combined [] tx whole e = ap ok (ok-injective _ _ (sym (single tx) ∙ e))
  aggregate-combined (x ∷ xs) tx whole e = rw e refl

  -- An entry that can be added is.
  IsAdded-add_to_pool :
      (entry : PoolEntry) (extra : List Transaction) (header : Header) (entries : Pool)
      → IsAdded env extra header entries entry
      → add_to_pool env entry extra header entries ≡ ok (entries ++ (entry ∷ []))
  unfolding add_to_pool validate_raw_tx
  IsAdded-add_to_pool entry extra header entries a =
      let txs = all_transactions entries in
      let fresh : any (λ (tx : Transaction). env.tx_eq tx entry.tx) txs ≡ false =
        any-false (λ (tx : Transaction). env.tx_eq tx entry.tx) txs a.fresh in
      let agg : combined env (txs ++ extra) entry.tx ≡ ok a.whole =
        aggregate-combined (txs ++ extra) entry.tx a.whole a.aggregated in
      rw (fresh, agg, a.body, a.on_chain, a.token_sums, a.sums) refl

  kept-IsBuilt :
      (extra : List Transaction) (header : Header) (x : PoolEntry) (r : Result PoolError Pool)
      (so_far : Pool)
      → add_to_pool env x extra header so_far ≡ r
      → IsBuilt env extra header so_far
      → IsBuilt env extra header (kept env r so_far)
  kept-IsBuilt extra header x (err e) so_far h old = old
  kept-IsBuilt extra header x (ok after) so_far h old =
      let (split, new) = add_to_pool-IsAdded x extra header so_far after h in
      subst (IsBuilt env extra header) (sym split) (IsBuilt.added old new)

  reconcile_loop-IsBuilt :
      (xs : List PoolEntry) (extra : List Transaction) (header : Header) (so_far : Pool)
      → IsBuilt env extra header so_far
      → IsBuilt env extra header (reconcile_loop env xs extra header so_far)
  unfolding reconcile_loop
  reconcile_loop-IsBuilt [] extra header so_far old = old
  reconcile_loop-IsBuilt (x ∷ xs) extra header so_far old =
      reconcile_loop-IsBuilt xs extra header
        (kept env (add_to_pool env x extra header so_far) so_far)
        (kept-IsBuilt extra header x (add_to_pool env x extra header so_far) so_far refl old)

  kept-IsChosen :
      (extra : List Transaction) (header : Header) (x : PoolEntry) (xs : List PoolEntry)
      (r : Result PoolError Pool) (so_far after : Pool)
      → add_to_pool env x extra header so_far ≡ r
      → IsChosen env extra header xs (kept env r so_far) after
      → IsChosen env extra header (x ∷ xs) so_far after
  kept-IsChosen extra header x xs (err e) so_far after h rest =
      IsChosen.left_out
        (λ a.
          let wrong : err e ≡ ok (so_far ++ (x ∷ [])) =
            sym h ∙ IsAdded-add_to_pool x extra header so_far a in
          absurd (cc))
        rest
  kept-IsChosen extra header x xs (ok entries) so_far after h rest =
      let (split, new) = add_to_pool-IsAdded x extra header so_far entries h in
      IsChosen.taken new (subst (λ (l : Pool). IsChosen env extra header xs l after) split rest)

  reconcile_loop-IsChosen :
      (xs : List PoolEntry) (extra : List Transaction) (header : Header) (so_far : Pool)
      → IsChosen env extra header xs so_far (reconcile_loop env xs extra header so_far)
  unfolding reconcile_loop
  reconcile_loop-IsChosen [] extra header so_far = IsChosen.done
  reconcile_loop-IsChosen (x ∷ xs) extra header so_far =
      let r = add_to_pool env x extra header so_far in
      kept-IsChosen extra header x xs r so_far
        (reconcile_loop env xs extra header (kept env r so_far)) refl
        (reconcile_loop-IsChosen xs extra header (kept env r so_far))

  lawful-IsConsistent :
      (extra_tx : Option Transaction) (header : Header) (entries : Pool)
      → IsConsistent env entries
          (optional env extra_tx)
          header
          (reconcile env extra_tx header entries)
  unfolding reconcile
  lawful-IsConsistent extra_tx header entries = record {
    built = reconcile_loop-IsBuilt entries (optional env extra_tx) header [] IsBuilt.empty;
    chosen = reconcile_loop-IsChosen entries (optional env extra_tx) header [];
  }

-- Whatever the pool held, `reconcile` leaves a pool that is built up one by one: each transaction equals
-- none before it, and those up to it, aggregated with the extra one, make a transaction that is valid in
-- itself, against the chain, and in both sums on top of the block. Of the entries that the pool held, in
-- their order, those are left out, and only those, for which this fails on the ones kept before.
pub reconcile-IsConsistent :
    (d : Digests) (keys : Keys) (env : Env) (extra_tx : Option Transaction) (header : Header)
    (entries : Pool)
    → IsConsistent
        (linked d keys env)
        entries
        (optional (linked d keys env) extra_tx)
        header
        (reconcile (linked d keys env) extra_tx header entries)
unfolding linked
reconcile-IsConsistent d keys env extra_tx header entries =
    lawful-IsConsistent (linked d keys env) (aggregate-single d keys) extra_tx header entries
