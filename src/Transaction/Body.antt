-- ===== src/Transaction/Body.antt =====
-- `TransactionBody` of core/src/core/transaction.rs: building a body and its checks. Sizes are 64-bit
-- words; the verifier cache and the batch checks of proofs and signatures are left to `validate`'s
-- callers.
pub mod Weight
pub mod Sorted
pub mod Fees
mod Runs
use vcash.Prelude.{
  ℕ, zero, suc, ◌+◌, ◌-◌, ◌*◌, min, max, Bool, true, false, not, ◌&&◌, ◌||◌, List, [], ◌∷◌, ◌++◌,
  map, length, Result, ok, err, fail_if, ◌>>=◌, ◌>>◌, ltb, ◌==◌, if◌then◌else◌, Option, none, some,
  wrap64, saturating_add64, u64_mod,
}
use vcash.Consensus.Params.{ChainType, max_block_weight, support_token_height}
use vcash.Transaction.Types.{
  OutputFeatures, KernelFeatures, TokenKernelFeatures, Input, TokenInput, Output, TokenOutput,
  TxKernel, TokenTxKernel, TransactionBody, SerError, TxError, plain, coinbase, height_locked,
  plain_token, issue_token, height_locked_token, too_heavy, serialization, invalid_output_features,
  invalid_kernel_features, issue_token_key_repeated, issue_token_sum_mismatch,
  unreach_token_support_height, Digests, input_hash, output_hash, token_input_hash,
  token_output_hash, is_plain, is_tokenissue, is_token, is_coinbase, is_issue_token,
}
use vcash.Transaction.Sorting.{
  verify_sorted_and_unique, search_insert, sort_unstable, verify_no_overlap,
}

pub data Weighting : Type 0 where
  as_transaction as_block no_limit : Weighting
  as_limited_transaction : (max_weight : ℕ) → Weighting

abbrev pub saturating_mul64 : ℕ → ℕ → ℕ
saturating_mul64 a b = min (a * b) (u64_mod - 1)

abbrev pub block_input_weight : ℕ
block_input_weight = 1

abbrev pub block_output_weight : ℕ
block_output_weight = 21

abbrev pub block_kernel_weight : ℕ
block_kernel_weight = 3

abbrev pub empty : TransactionBody
empty = record {
  inputs = [];
  token_inputs = [];
  outputs = [];
  token_outputs = [];
  kernels = [];
  token_kernels = [];
}

-- `filter_map` to the fees and `fold(0, saturating_add)`, from the left.
abbrev pub fee_of : KernelFeatures → Option ℕ
fee_of (plain fee) = some fee
fee_of coinbase = none
fee_of (height_locked fee lock_height) = some fee

abbrev pub add_fee : ℕ → Option ℕ → ℕ
add_fee total none = total
add_fee total (some fee) = saturating_add64 total fee

unfoldable pub fold_fees : ℕ → List TxKernel → ℕ
fold_fees total [] = total
fold_fees total (k ∷ ks) = fold_fees (add_fee total (fee_of k.features)) ks

unfoldable pub fee : TransactionBody → ℕ
fee body = fold_fees 0 body.kernels

abbrev pub lock_of : KernelFeatures → ℕ
lock_of (plain fee) = 0
lock_of coinbase = 0
lock_of (height_locked fee lock_height) = lock_height

abbrev pub token_lock_of : TokenKernelFeatures → ℕ
token_lock_of plain_token = 0
token_lock_of issue_token = 0
token_lock_of (height_locked_token lock_height) = lock_height

-- `filter_map(..).max().unwrap_or(0)`: a kernel without a lock counts as 0, which changes no maximum.
abbrev pub max_of : List ℕ → ℕ
max_of [] = 0
max_of (x ∷ xs) = max x (max_of xs)

unfoldable pub lock_height : TransactionBody → ℕ
lock_height body =
    let kernel_height = max_of (map (λ (k : TxKernel). lock_of k.features) body.kernels) in
    let token_kernel_height =
      max_of (map (λ (k : TokenTxKernel). token_lock_of k.features) body.token_kernels) in
    if ltb token_kernel_height kernel_height then kernel_height else token_kernel_height

abbrev pub saturating_weight : ℕ → ℕ → ℕ → ℕ
saturating_weight inputs outputs kernels =
    saturating_add64
      (saturating_add64 (saturating_mul64 inputs block_input_weight)
        (saturating_mul64 outputs block_output_weight))
      (saturating_mul64 kernels block_kernel_weight)

unfoldable pub weight_as_block : ℕ → ℕ → ℕ → ℕ → ℕ → ℕ → ℕ
weight_as_block input_len output_len kernel_len token_input_len token_output_len token_kernel_len =
    wrap64 (
      saturating_weight input_len output_len kernel_len
      + saturating_weight token_input_len token_output_len token_kernel_len)

-- Subtraction stops at 0, as `saturating_sub` does.
unfoldable pub weight : ℕ → ℕ → ℕ → ℕ → ℕ → ℕ → ℕ
weight input_len output_len kernel_len token_input_len token_output_len token_kernel_len =
    let body_weight = saturating_add64 (saturating_mul64 output_len 4) kernel_len - input_len in
    let body_token_weight =
      saturating_add64 (saturating_mul64 token_output_len 4) token_kernel_len - token_input_len in
    max (wrap64 (body_weight + body_token_weight)) 1

unfoldable pub body_weight : TransactionBody → ℕ
body_weight body =
    weight (length body.inputs) (length body.outputs) (length body.kernels)
      (length body.token_inputs) (length body.token_outputs) (length body.token_kernels)

unfoldable pub body_weight_as_block : TransactionBody → ℕ
body_weight_as_block body =
    weight_as_block (length body.inputs) (length body.outputs) (length body.kernels)
      (length body.token_inputs) (length body.token_outputs) (length body.token_kernels)

abbrev pub coinbase_weight : ℕ
coinbase_weight = block_output_weight + block_kernel_weight

abbrev pub max_weight : ChainType → Weighting → Option ℕ
max_weight chain as_transaction = some (max_block_weight chain - coinbase_weight)
max_weight chain as_block = some (max_block_weight chain)
max_weight chain no_limit = none
max_weight chain (as_limited_transaction limit) =
    some (min (max_block_weight chain) limit - coinbase_weight)

abbrev pub check_weight : ℕ → Option ℕ → Result TxError (Unit {0})
check_weight weight none = ok tt
check_weight weight (some limit) = fail_if (ltb limit weight) too_heavy

unfoldable pub verify_weight : ChainType → Weighting → TransactionBody → Result TxError (Unit {0})
verify_weight chain weighting body =
    check_weight (body_weight_as_block body) (max_weight chain weighting)

-- `?` on a `ser::Error`, which `From` turns into `Error::Serialization`.
abbrev pub lift_ser : Result SerError (Unit {0}) → Result TxError (Unit {0})
lift_ser (ok _) = ok tt
lift_ser (err e) = err (serialization e)

abbrev pub replace_kernel : TxKernel → TransactionBody → TransactionBody
replace_kernel kernel body = record body { kernels = kernel ∷ [] }

abbrev pub replace_token_kernel : TokenTxKernel → TransactionBody → TransactionBody
replace_token_kernel kernel body = record body { token_kernels = kernel ∷ [] }

module _ (d : Digests) where
  abbrev pub sort : TransactionBody → TransactionBody
  sort body = record {
    inputs = sort_unstable (input_hash d) body.inputs;
    token_inputs = sort_unstable (token_input_hash d) body.token_inputs;
    outputs = sort_unstable (output_hash d) body.outputs;
    token_outputs = sort_unstable (token_output_hash d) body.token_outputs;
    kernels = sort_unstable d.kernel body.kernels;
    token_kernels = sort_unstable d.token_kernel body.token_kernels;
  }

  unfoldable pub with_input : Input → TransactionBody → TransactionBody
  with_input x body = record body { inputs = search_insert (input_hash d) x body.inputs }

  unfoldable pub with_output : Output → TransactionBody → TransactionBody
  with_output x body = record body { outputs = search_insert (output_hash d) x body.outputs }

  unfoldable pub with_token_input : TokenInput → TransactionBody → TransactionBody
  with_token_input x body = record body {
    token_inputs = search_insert (token_input_hash d) x body.token_inputs;
  }

  unfoldable pub with_token_output : TokenOutput → TransactionBody → TransactionBody
  with_token_output x body = record body {
    token_outputs = search_insert (token_output_hash d) x body.token_outputs;
  }

  unfoldable pub with_kernel : TxKernel → TransactionBody → TransactionBody
  with_kernel x body = record body { kernels = search_insert d.kernel x body.kernels }

  unfoldable pub with_token_kernel : TokenTxKernel → TransactionBody → TransactionBody
  with_token_kernel x body = record body {
    token_kernels = search_insert d.token_kernel x body.token_kernels;
  }

  unfoldable pub verify_sorted : TransactionBody → Result TxError (Unit {0})
  verify_sorted body = do
    lift_ser (verify_sorted_and_unique (input_hash d) body.inputs)
    lift_ser (verify_sorted_and_unique (token_input_hash d) body.token_inputs)
    lift_ser (verify_sorted_and_unique (output_hash d) body.outputs)
    lift_ser (verify_sorted_and_unique (token_output_hash d) body.token_outputs)
    lift_ser (verify_sorted_and_unique d.kernel body.kernels)
    lift_ser (verify_sorted_and_unique d.token_kernel body.token_kernels)

  -- The error of `init` is what `verify_sorted` found; otherwise the body is sorted in place.
  unfoldable pub init : Bool → TransactionBody → Result TxError TransactionBody
  init verify body = elim verify [
    | true ↦ (verify_sorted body >>= λ _. ok body)
    | false ↦ ok (sort body)
  ]

  unfoldable pub verify_cut_through : TransactionBody → Result TxError (Unit {0})
  verify_cut_through body =
      verify_no_overlap (map (input_hash d) body.inputs) (map (output_hash d) body.outputs)

  unfoldable pub validate_read : ChainType → Weighting → TransactionBody → Result TxError (Unit {0})
  validate_read chain weighting body = do
    verify_weight chain weighting body
    verify_sorted body
    verify_cut_through body
