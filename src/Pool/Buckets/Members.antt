-- ===== src/Pool/Buckets/Members.antt =====
-- The buckets hold transactions of the pool, and a pool that is not empty has a last one.
use mathlib.Core.Path.{subst}
use vcash.Transaction.Aggregate.{fee_to_weight}
use vcash.Prelude.{
  All-append, last, bind-ok, ok-injective, ℕ, zero, suc, ◌≤◌, ◌<◌, ◌≡◌, refl, ap, ◌∙◌, inl, inr,
  false, List, [], ◌∷◌, ◌++◌, length, length-append, get_elem?, All, Option, none, some, Result, ok,
  err, ◌>>◌, arith, leb, Bool-cases,
}
use vcash.Transaction.Types.{Transaction, TxError, Input}
use vcash.Transaction.Body.{Weighting}
use vcash.Transaction.CutThrough.{set_at}
use vcash.Pool.Types.{PoolEntry, Env}
use vcash.Pool.Entries.{Pool, all_transactions}
use vcash.Pool.Buckets.{
  Bucket, new_bucket, Sorting, find_parent, aggregate_with_tx, place, place_with_parent, sort_entry,
  sort_entries, precedes, insert_bucket, sort_buckets, flatten, bucket_transactions,
}

module _ {ℓ κ} {A : Type ℓ} (P : A → Type κ) where
  All-set_at : (i : ℕ) (x : A) (xs : List A) → P x → All P xs → All P (set_at i x xs)
  All-set_at i x [] p ps = ps
  All-set_at zero x (y ∷ ys) p (q, ps) = (p, ps)
  All-set_at (suc i) x (y ∷ ys) p (q, ps) = (q, All-set_at i x ys p ps)

  All-get_elem? : (i : ℕ) (x : A) (xs : List A) → get_elem? xs i ≡ some x → All P xs → P x
  All-get_elem? i x [] e ps = absurd (cc)
  All-get_elem? zero x (y ∷ ys) e (q, ps) = let same : y ≡ x = cc in subst P same q
  All-get_elem? (suc i) x (y ∷ ys) e (q, ps) = All-get_elem? i x ys e ps

  -- A list that is not empty has a last element.
  pub last-All : (xs : List A) → 0 < length xs → All P xs → (x : A) × ((last xs ≡ some x) × P x)
  last-All [] lt ps = absurd (omega arith)
  last-All (x ∷ []) lt (p, ps) = (x, (refl, p))
  last-All (x ∷ y ∷ ys) lt (p, ps) = last-All (y ∷ ys) (omega arith) ps

length-set_at {ℓ} : {A : Type ℓ} (i : ℕ) (x : A) (xs : List A) → length (set_at i x xs) ≡ length xs
length-set_at i x [] = refl
length-set_at zero x (y ∷ ys) = refl
length-set_at (suc i) x (y ∷ ys) = ap suc (length-set_at i x ys)

module _ (env : Env) (weighting : Weighting) (P : Transaction → Type 0) where
  abbrev Holds : Bucket → Type 0
  Holds b = (0 < length b.raw_txs) × All P b.raw_txs

  joined-Holds :
      (b joined : Bucket) (tx : Transaction)
      → Holds b
      → P tx
      → aggregate_with_tx env weighting b tx ≡ ok joined
      → Holds joined
  unfolding aggregate_with_tx
  joined-Holds b joined tx (lt, all) p e =
      let raw_txs = b.raw_txs ++ (tx ∷ []) in
      let made : Transaction → Bucket = λ agg_tx. record {
        raw_txs = raw_txs;
        fee_weight = fee_to_weight agg_tx;
        age_idx = b.age_idx;
      } in
      let (agg_tx, (e1, k1)) =
        bind-ok (env.aggregate raw_txs)
          (λ agg_tx. env.validate weighting agg_tx >> ok (made agg_tx)) joined e in
      let (u, (e2, k2)) =
        bind-ok (env.validate weighting agg_tx) (λ _. ok (made agg_tx)) joined k1 in
      subst Holds (ok-injective (made agg_tx) joined k2) (
        omega (arith, length-append b.raw_txs (tx ∷ [])),
        All-append P b.raw_txs (tx ∷ []) all (p, tt),
      )

  abbrev IsGood : List Bucket → Type 0
  IsGood bs = All Holds bs

  -- A step keeps what holds of the buckets, and takes none away.
  abbrev Keeps : Sorting → Sorting → Type 0
  Keeps s s' = IsGood s'.tx_buckets × (length s.tx_buckets ≤ length s'.tx_buckets)

  own_bucket :
      (tx : Transaction) (bs : List Bucket)
      → P tx
      → IsGood bs
      → IsGood (bs ++ (new_bucket tx (length bs) ∷ []))
        × (length bs < length (bs ++ (new_bucket tx (length bs) ∷ [])))
  own_bucket tx bs p good = (
    All-append Holds bs (new_bucket tx (length bs) ∷ []) good ((omega arith, (p, tt)), tt),
    omega (arith, length-append bs (new_bucket tx (length bs) ∷ [])),
  )

  with_parent-Keeps :
      (tx : Transaction) (pos : ℕ) (b : Bucket) (s : Sorting) (r : Result TxError Bucket)
      → ((joined : Bucket) → r ≡ ok joined → Holds joined)
      → P tx
      → IsGood s.tx_buckets
      → Keeps s (place_with_parent env weighting tx pos b r s)
  with_parent-Keeps tx pos b s (err e) h p good = (good, omega arith)
  with_parent-Keeps tx pos b s (ok joined) h p good =
      elim (Bool-cases (leb b.fee_weight joined.fee_weight)) [
        | inl better ↦ rw better (
          All-set_at Holds pos joined s.tx_buckets (h joined refl) good,
          omega (arith, length-set_at pos joined s.tx_buckets),
        )
        | inr worse ↦
            let own = own_bucket tx s.tx_buckets p good in rw worse (own.0, omega (arith, own.1))
      ]

  found-Keeps :
      (tx : Transaction) (pos : ℕ) (s : Sorting) (found : Option Bucket)
      → get_elem? s.tx_buckets pos ≡ found
      → P tx
      → IsGood s.tx_buckets
      → Keeps s (elim found [
        | none ↦ s
        | some b ↦ place_with_parent env weighting tx pos b (aggregate_with_tx env weighting b tx) s
      ])
  found-Keeps tx pos s none e p good = (good, omega arith)
  found-Keeps tx pos s (some b) e p good =
      with_parent-Keeps tx pos b s (aggregate_with_tx env weighting b tx)
        (λ joined e'. joined-Holds b joined tx (All-get_elem? Holds pos b s.tx_buckets e good) p e')
        p good

  place-Keeps :
      (tx : Transaction) (insert_pos : Option ℕ) (s : Sorting)
      → P tx
      → IsGood s.tx_buckets
      → Keeps s (place env weighting tx insert_pos s)
  place-Keeps tx none s p good =
      let own = own_bucket tx s.tx_buckets p good in (own.0, omega (arith, own.1))
  place-Keeps tx (some pos) s p good = found-Keeps tx pos s (get_elem? s.tx_buckets pos) refl p good

  sort_entry-Keeps :
      (x : PoolEntry) (s : Sorting)
      → P x.tx
      → IsGood s.tx_buckets
      → Keeps s (sort_entry env weighting x s)
  unfolding sort_entry
  sort_entry-Keeps x s p good =
      let (insert_pos, is_rejected) = find_parent x.tx.body.inputs s none false in
      elim (Bool-cases is_rejected) [
        | inl t ↦ rw t (good, omega arith)
        | inr f ↦ rw f (place-Keeps x.tx insert_pos s p good)
      ]

  sort_entries-Keeps :
      (xs : Pool) (s : Sorting)
      → All P (all_transactions xs)
      → IsGood s.tx_buckets
      → Keeps s (sort_entries env weighting xs s)
  unfolding sort_entries
  sort_entries-Keeps [] s ps good = (good, omega arith)
  sort_entries-Keeps (x ∷ xs) s (p, ps) good =
      let here = sort_entry-Keeps x s p good in
      let rest = sort_entries-Keeps xs (sort_entry env weighting x s) ps here.0 in
      (rest.0, omega (arith, here.1, rest.1))

  insert_bucket-All :
      (b : Bucket) (bs : List Bucket)
      → Holds b
      → IsGood bs
      → IsGood (insert_bucket env weighting b bs)
        × (length (insert_bucket env weighting b bs) ≡ suc (length bs))
  insert_bucket-All b [] h good = ((h, tt), refl)
  insert_bucket-All b (c ∷ cs) h (g, good) =
      let rest = insert_bucket-All b cs h good in
      elim (Bool-cases (precedes env weighting b c)) [
        | inl t ↦ rw t ((h, (g, good)), refl)
        | inr f ↦ rw f ((g, rest.0), ap suc rest.1)
      ]

  sort_buckets-All :
      (bs : List Bucket)
      → IsGood bs
      → IsGood (sort_buckets env weighting bs)
        × (length (sort_buckets env weighting bs) ≡ length bs)
  unfolding sort_buckets
  sort_buckets-All [] good = (tt, refl)
  sort_buckets-All (b ∷ bs) (h, good) =
      let rest = sort_buckets-All bs good in
      let put = insert_bucket-All b (sort_buckets env weighting bs) h rest.0 in
      (put.0, put.1 ∙ ap suc rest.1)

  flatten-All :
      (bs : List Bucket)
      → IsGood bs
      → All P (flatten env weighting bs) × (length bs ≤ length (flatten env weighting bs))
  flatten-All [] good = (tt, omega arith)
  flatten-All (b ∷ bs) ((lt, all), good) =
      let rest = flatten-All bs good in
      (
        All-append P b.raw_txs (flatten env weighting bs) all rest.0,
        omega (arith, length-append b.raw_txs (flatten env weighting bs), rest.1),
      )

  -- The first transaction has no parent in an empty index.
  no_parent :
      (inputs : List Input) (s : Sorting)
      → s.rejected ≡ []
      → s.output_commits ≡ []
      → find_parent inputs s none false ≡ (none, false)
  unfolding find_parent
  no_parent [] s r o = refl
  no_parent (i ∷ is) s r o = rw (r, o) (no_parent is s r o)

  abbrev start : Sorting
  start = record { tx_buckets = []; output_commits = []; rejected = [] }

  first_bucket : (x : PoolEntry) → 0 < length (sort_entry env weighting x start).tx_buckets
  unfolding sort_entry
  first_bucket x = rw (no_parent x.tx.body.inputs start refl refl) (omega arith)

  -- For a pool that is not empty, what holds of all its transactions holds of all those in its buckets,
  -- and there is a last transaction in its buckets.
  pub bucket_transactions-last :
      (entries : Pool)
      → 0 < length entries
      → All P (all_transactions entries)
      → All P (bucket_transactions env weighting entries)
        × ((tx : Transaction) × ((last (bucket_transactions env weighting entries) ≡ some tx)
              × P tx))
  unfolding bucket_transactions sort_entries
  bucket_transactions-last [] lt ps = absurd (omega arith)
  bucket_transactions-last (x ∷ xs) lt (p, ps) =
      let first = sort_entry-Keeps x start p tt in
      let s = sort_entry env weighting x start in
      let sorted = sort_entries-Keeps xs s ps first.0 in
      let ordered = sort_buckets-All (sort_entries env weighting xs s).tx_buckets sorted.0 in
      let flat =
        flatten-All (sort_buckets env weighting (sort_entries env weighting xs s).tx_buckets)
          ordered.0 in
      (
        flat.0,
        last-All P
            (flatten env weighting
              (sort_buckets env weighting (sort_entries env weighting xs s).tx_buckets))
            (omega (arith, first_bucket x, sorted.1, ordered.1, flat.1)) flat.0,
      )
