-- ===== src/Pool/Buckets.antt =====
-- `Bucket` and `bucket_transactions` of pool/src/pool.rs. The index of commitments is an association
-- list in which the newest pair of a key counts, and the set of rejected commitments is a list.
pub mod Members
use vcash.Prelude.{
  ℕ, zero, suc, ◌+◌, Bool, true, false, not, ◌&&◌, ◌||◌, List, [], ◌∷◌, ◌++◌, map, length, Option,
  none, some, Result, ok, err, ◌>>=◌, ◌>>◌, ltb, leb, ◌==◌, if◌then◌else◌, get_elem?,
}
use vcash.Transaction.Types.{Transaction, Input, Output, TxError}
use vcash.Transaction.Body.{Weighting, as_limited_transaction}
use vcash.Transaction.Features.{contains}
use vcash.Transaction.Aggregate.{fee_to_weight}
use vcash.Transaction.CutThrough.{set_at}
use vcash.Pool.Types.{PoolEntry, PoolError, Header, Env, lift_tx}
use vcash.Pool.Entries.{Pool, validate_raw_txs}

pub record Bucket : Type 0 where
  pub raw_txs : List Transaction
  pub fee_weight : ℕ
  pub age_idx : ℕ

abbrev pub new_bucket : Transaction → ℕ → Bucket
new_bucket tx age_idx = record {
  raw_txs = tx ∷ [];
  fee_weight = fee_to_weight tx;
  age_idx = age_idx;
}

pub record Sorting : Type 0 where
  pub tx_buckets : List Bucket
  pub output_commits : List (ℕ × ℕ)
  pub rejected : List ℕ

abbrev pub lookup : ℕ → List (ℕ × ℕ) → Option ℕ
lookup key [] = none
lookup key ((k, pos) ∷ rest) = let later = lookup key rest in if key == k then some pos else later

-- The loop over the inputs: the bucket of the parent that was found, and whether the transaction is
-- rejected.
unfoldable pub find_parent : List Input → Sorting → Option ℕ → Bool → Option ℕ × Bool
find_parent [] s insert_pos is_rejected = (insert_pos, is_rejected)
find_parent (input ∷ inputs) s insert_pos is_rejected =
    let commit = input.commit in
    let refused = find_parent inputs s insert_pos true in
    let unrelated = find_parent inputs s insert_pos is_rejected in
    if contains commit s.rejected then refused else elim (lookup commit s.output_commits) [
      | none ↦ unrelated
      | some pos ↦ elim insert_pos [
        | none ↦ find_parent inputs s (some pos) is_rejected
        | some earlier ↦ refused
      ]
    ]

abbrev pub commits : List Output → List ℕ
commits outputs = map (λ (x : Output). x.commit) outputs

abbrev pub reject : Transaction → Sorting → Sorting
reject tx s = record s { rejected = commits tx.body.outputs ++ s.rejected }

-- The outputs of a transaction that was placed are indexed under `insert_pos`.
abbrev pub index_outputs : Transaction → ℕ → List Bucket → Sorting → Sorting
index_outputs tx insert_pos buckets s = record s {
  tx_buckets = buckets;
  output_commits =
      map (λ commit. (commit, insert_pos)) (commits tx.body.outputs) ++ s.output_commits;
}

module _ (env : Env) (weighting : Weighting) where
  unfoldable pub aggregate_with_tx : Bucket → Transaction → Result TxError Bucket
  aggregate_with_tx bucket new_tx = do
    let raw_txs = bucket.raw_txs ++ (new_tx ∷ [])
    agg_tx ← env.aggregate raw_txs
    env.validate weighting agg_tx
    ok (record { raw_txs = raw_txs; fee_weight = fee_to_weight agg_tx; age_idx = bucket.age_idx })

  -- A transaction with one parent, whose bucket is at `pos`. As in the code, also a transaction that
  -- gets a bucket of its own is indexed under the bucket of its parent.
  abbrev pub place_with_parent :
      Transaction → ℕ → Bucket → Result TxError Bucket → Sorting → Sorting
  place_with_parent tx pos bucket (ok joined) s =
      index_outputs tx pos
        (if leb bucket.fee_weight joined.fee_weight
          then set_at pos joined s.tx_buckets
          else s.tx_buckets ++ (new_bucket tx (length s.tx_buckets) ∷ []))
        s
  place_with_parent tx pos bucket (err e) s = reject tx s

  abbrev pub place : Transaction → Option ℕ → Sorting → Sorting
  place tx none s =
      index_outputs tx (length s.tx_buckets)
        (s.tx_buckets ++ (new_bucket tx (length s.tx_buckets) ∷ [])) s
  place tx (some pos) s = elim (get_elem? s.tx_buckets pos) [
    | none ↦ s
    | some bucket ↦ place_with_parent tx pos bucket (aggregate_with_tx bucket tx) s
  ]

  unfoldable pub sort_entry : PoolEntry → Sorting → Sorting
  sort_entry entry s =
      let (insert_pos, is_rejected) = find_parent entry.tx.body.inputs s none false in
      if is_rejected then reject entry.tx s else place entry.tx insert_pos s

  unfoldable pub sort_entries : Pool → Sorting → Sorting
  sort_entries [] s = s
  sort_entries (x ∷ xs) s = sort_entries xs (sort_entry x s)

  -- `sort_unstable_by_key` on the fee over weight, the highest first, and then the age.
  abbrev pub precedes : Bucket → Bucket → Bool
  precedes a b =
      ltb b.fee_weight a.fee_weight || ((a.fee_weight == b.fee_weight) && leb a.age_idx b.age_idx)

  abbrev pub insert_bucket : Bucket → List Bucket → List Bucket
  insert_bucket x [] = x ∷ []
  insert_bucket x (y ∷ ys) =
      let rest = insert_bucket x ys in if precedes x y then x ∷ y ∷ ys else y ∷ rest

  unfoldable pub sort_buckets : List Bucket → List Bucket
  sort_buckets [] = []
  sort_buckets (x ∷ xs) = insert_bucket x (sort_buckets xs)

  abbrev pub flatten : List Bucket → List Transaction
  flatten [] = []
  flatten (b ∷ bs) = b.raw_txs ++ flatten bs

  unfoldable pub bucket_transactions : Pool → List Transaction
  bucket_transactions entries = flatten (
      sort_buckets
        (sort_entries entries
          (record { tx_buckets = []; output_commits = []; rejected = [] })).tx_buckets)

unfoldable pub prepare_mineable_transactions : Env → ℕ → Pool → Result PoolError (List Transaction)
prepare_mineable_transactions env max_weight entries =
    let weighting = as_limited_transaction max_weight in
    do
      header ← env.chain_head
      validate_raw_txs env (bucket_transactions env weighting entries) none header weighting
