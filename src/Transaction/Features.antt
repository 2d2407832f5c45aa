-- ===== src/Transaction/Features.antt =====
-- The checks of core/src/core/transaction.rs on the features of a body's items, on its height, and on
-- the keys of the tokens that it issues.
-- pub mod Issue
use vcash.Prelude.{
  ℕ, Bool, false, not, ◌&&◌, ◌||◌, List, [], ◌∷◌, length, Result, ok, err, fail_if, ◌>>=◌, ◌>>◌,
  ltb, ◌==◌, if◌then◌else◌, Option, none, some,
}
use vcash.Consensus.Params.{ChainType, support_token_height}
use vcash.Transaction.Types.{
  TokenInput, Output, TokenOutput, TxKernel, TokenTxKernel, TransactionBody, TxError,
  invalid_output_features, invalid_kernel_features, issue_token_key_repeated,
  issue_token_sum_mismatch, unreach_token_support_height, is_plain, is_tokenissue, is_token,
  is_coinbase, is_issue_token,
}

abbrev pub any {ℓ} : {A : Type ℓ} → (A → Bool) → List A → Bool
any p [] = false
any p (x ∷ xs) = p x || any p xs

unfoldable pub verify_output_features : TransactionBody → Result TxError (Unit {0})
verify_output_features body =
    fail_if (any (λ (x : Output). not (is_plain x.features)) body.outputs) invalid_output_features

unfoldable pub verify_token_input_features : TransactionBody → Result TxError (Unit {0})
verify_token_input_features body =
    fail_if
      (any (λ (x : TokenInput). not (is_token x.features) && not (is_tokenissue x.features))
        body.token_inputs)
      invalid_output_features

unfoldable pub verify_token_output_features : TransactionBody → Result TxError (Unit {0})
verify_token_output_features body =
    fail_if
      (any (λ (x : TokenOutput). not (is_token x.features) && not (is_tokenissue x.features))
        body.token_outputs)
      invalid_output_features

unfoldable pub verify_kernel_features : TransactionBody → Result TxError (Unit {0})
verify_kernel_features body =
    fail_if (any (λ (k : TxKernel). is_coinbase k.features) body.kernels) invalid_kernel_features

unfoldable pub verify_features : TransactionBody → Result TxError (Unit {0})
verify_features body = do
  verify_output_features body
  verify_token_input_features body
  verify_token_output_features body
  verify_kernel_features body

unfoldable pub validate_token_height : ChainType → ℕ → TransactionBody → Result TxError (Unit {0})
validate_token_height chain height body =
    fail_if (ltb height (support_token_height chain) && ltb 0 (length body.token_kernels))
      unreach_token_support_height

-- `keys.filter(..).all(|x| set.insert(x.token_type))` into an empty set: none if a key comes twice.
abbrev pub contains : ℕ → List ℕ → Bool
contains key = any (λ k. key == k)

pub collect_keys : List ℕ → List ℕ → Option (List ℕ)
collect_keys set [] = some set
collect_keys set (key ∷ keys) =
    let rest = collect_keys (key ∷ set) keys in if contains key set then none else rest

abbrev pub output_keys : List TokenOutput → List ℕ
output_keys [] = []
output_keys (x ∷ xs) =
    let rest = output_keys xs in if is_tokenissue x.features then x.token_type ∷ rest else rest

abbrev pub kernel_keys : List TokenTxKernel → List ℕ
kernel_keys [] = []
kernel_keys (k ∷ ks) =
    let rest = kernel_keys ks in if is_issue_token k.features then k.token_type ∷ rest else rest

abbrev pub unique_keys : List ℕ → Result TxError (List ℕ)
unique_keys keys = elim (collect_keys [] keys) [
  | none ↦ err issue_token_key_repeated
  | some set ↦ ok set
]

unfoldable pub check_keys : List ℕ → List ℕ → Result TxError (Unit {0})
check_keys outputs kernels = do
  output_set ← unique_keys outputs
  kernel_set ← unique_keys kernels
  fail_if (not (length output_set == length kernel_set)) issue_token_sum_mismatch
  fail_if (any (λ key. not (contains key kernel_set)) output_set) issue_token_sum_mismatch

unfoldable pub validate_issue_token_output : TransactionBody → Result TxError (Unit {0})
validate_issue_token_output body =
    check_keys (output_keys body.token_outputs) (kernel_keys body.token_kernels)
