-- ===== src/Transaction/Aggregate.antt =====
-- `Transaction` of core/src/core/transaction.rs, with `aggregate` and `deaggregate`, and the sum of
-- offsets of core/src/core/committed.rs. Blinding factors are numbers; reading one as a secret key and
-- summing keys are calls of secp256k1, from outside the repository.
pub mod Remainder
mod Runs
use vcash.Prelude.{
  ℕ, ◌+◌, ◌*◌, ◌/◌, ◌-◌, Bool, true, false, not, ◌&&◌, ◌||◌, List, [], ◌∷◌, ◌++◌, map, Result, ok,
  err, fail_if, ◌>>=◌, ◌>>◌, ◌==◌, if◌then◌else◌, Option, none, some, wrap64,
}
use vcash.Transaction.Types.{
  Input, Output, TokenInput, TokenOutput, TxKernel, TokenTxKernel, TransactionBody, Transaction,
  TxError, committed, secp, Digests, input_hash, output_hash, token_input_hash, token_output_hash,
}
use vcash.Transaction.Sorting.{sort_unstable}
use vcash.Transaction.Features.{any}
use vcash.Transaction.Body.{empty, sort, fee, body_weight}
use vcash.Transaction.CutThrough.{cut_through}

pub record Keys : Type 0 where
  pub secret_key : ℕ → Option ℕ
  pub blind_sum : List ℕ → List ℕ → Option ℕ

abbrev pub empty_transaction : Transaction
empty_transaction = record { offset = 0; body = empty }

unfoldable pub fee_to_weight : Transaction → ℕ
fee_to_weight tx = wrap64 (fee tx.body * 1000) / body_weight tx.body

-- Two lists of items are equal if their hashes are, in order.
abbrev pub same_hashes : List ℕ → List ℕ → Bool
same_hashes [] [] = true
same_hashes [] (y ∷ ys) = false
same_hashes (x ∷ xs) [] = false
same_hashes (x ∷ xs) (y ∷ ys) = (x == y) && same_hashes xs ys

module _ (d : Digests) where
  unfoldable pub body_eq : TransactionBody → TransactionBody → Bool
  body_eq a b =
      same_hashes (map (input_hash d) a.inputs) (map (input_hash d) b.inputs)
      && (same_hashes (map (token_input_hash d) a.token_inputs)
            (map (token_input_hash d) b.token_inputs)
          && (same_hashes (map (output_hash d) a.outputs) (map (output_hash d) b.outputs)
              && (same_hashes (map (token_output_hash d) a.token_outputs)
                    (map (token_output_hash d) b.token_outputs)
                  && (same_hashes (map d.kernel a.kernels) (map d.kernel b.kernels)
                      && same_hashes (map d.token_kernel a.token_kernels)
                          (map d.token_kernel b.token_kernels)))))

  unfoldable pub tx_eq : Transaction → Transaction → Bool
  tx_eq a b = body_eq a.body b.body && (a.offset == b.offset)

  -- `Transaction::new` sorts the body.
  abbrev pub new_transaction : TransactionBody → Transaction
  new_transaction body = record { offset = 0; body = sort d body }

-- The keys that are not zero and can be read, `to_secrets`.
abbrev pub to_secrets : Keys → List ℕ → List ℕ
to_secrets keys [] = []
to_secrets keys (b ∷ bs) =
    let rest = to_secrets keys bs in
    if b == 0 then rest else elim (keys.secret_key b) [ none ↦ rest | some k ↦ k ∷ rest ]

abbrev pub sum_or_fail : Option ℕ → TxError → Result TxError ℕ
sum_or_fail none e = err e
sum_or_fail (some k) e = ok k

unfoldable pub sum_kernel_offsets : Keys → List ℕ → List ℕ → Result TxError ℕ
sum_kernel_offsets keys positive negative = elim (to_secrets keys positive) [
  | [] ↦ ok 0
  | k ∷ ks ↦ sum_or_fail (keys.blind_sum (k ∷ ks) (to_secrets keys negative)) committed
]

-- The items of all the transactions, in their order.
abbrev pub append_bodies : TransactionBody → TransactionBody → TransactionBody
append_bodies a b = record {
  inputs = a.inputs ++ b.inputs;
  token_inputs = a.token_inputs ++ b.token_inputs;
  outputs = a.outputs ++ b.outputs;
  token_outputs = a.token_outputs ++ b.token_outputs;
  kernels = a.kernels ++ b.kernels;
  token_kernels = a.token_kernels ++ b.token_kernels;
}

unfoldable pub join_bodies : List Transaction → TransactionBody
join_bodies [] = empty
join_bodies (tx ∷ txs) = append_bodies tx.body (join_bodies txs)

module _ (d : Digests) (keys : Keys) where
  -- `aggregate` of two transactions or more.
  unfoldable pub aggregate_all : List Transaction → Result TxError Transaction
  aggregate_all txs =
      let joined = join_bodies txs in
      do
        (inputs, (outputs, (token_inputs, token_outputs))) ←
            cut_through d joined.inputs joined.outputs joined.token_inputs joined.token_outputs
        offset ← sum_kernel_offsets keys (map (λ (tx : Transaction). tx.offset) txs) []
        ok
            (record (new_transaction d (record {
              inputs = inputs;
              token_inputs = token_inputs;
              outputs = outputs;
              token_outputs = token_outputs;
              kernels = sort_unstable d.kernel joined.kernels;
              token_kernels = sort_unstable d.token_kernel joined.token_kernels;
            })) { offset = offset })

  unfoldable pub aggregate : List Transaction → Result TxError Transaction
  aggregate [] = ok empty_transaction
  aggregate (tx ∷ []) = ok tx
  aggregate (tx ∷ other ∷ txs) = aggregate_all (tx ∷ other ∷ txs)

  -- One loop of `deaggregate`: the items that the aggregate does not hold, each once.
  abbrev pub leftover {ℓ} : {A : Type ℓ} → (A → ℕ) → List A → List A → List A → List A
  leftover hash held kept [] = kept
  leftover hash held kept (x ∷ xs) =
      leftover hash held
        (if any (λ y. hash y == hash x) held || any (λ y. hash y == hash x) kept
          then kept
          else kept ++ (x ∷ []))
        xs

  unfoldable pub remaining_offset : ℕ → ℕ → Result TxError ℕ
  remaining_offset whole part = elim (to_secrets keys (whole ∷ [])) [
    | [] ↦ elim (to_secrets keys (part ∷ [])) [
      | [] ↦ ok 0
      | k ∷ ks ↦ sum_or_fail (keys.blind_sum [] (k ∷ ks)) secp
    ]
    | k ∷ ks ↦ sum_or_fail (keys.blind_sum (k ∷ ks) (to_secrets keys (part ∷ []))) secp
  ]

  unfoldable pub deaggregate : Transaction → List Transaction → Result TxError Transaction
  deaggregate mk_tx txs = do
    tx ← aggregate txs
    offset ← remaining_offset mk_tx.offset tx.offset
    ok
        (record (new_transaction d (
          sort d (record {
            inputs = leftover (input_hash d) tx.body.inputs [] mk_tx.body.inputs;
            token_inputs =
                leftover (token_input_hash d) tx.body.token_inputs [] mk_tx.body.token_inputs;
            outputs = leftover (output_hash d) tx.body.outputs [] mk_tx.body.outputs;
            token_outputs =
                leftover (token_output_hash d) tx.body.token_outputs [] mk_tx.body.token_outputs;
            kernels = leftover d.kernel tx.body.kernels [] mk_tx.body.kernels;
            token_kernels =
                leftover d.token_kernel tx.body.token_kernels [] mk_tx.body.token_kernels;
          }))) { offset = offset })
