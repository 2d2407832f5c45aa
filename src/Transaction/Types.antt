-- ===== src/Transaction/Types.antt =====
-- The data of core/src/core/transaction.rs. Commitments, signatures, range proofs and token keys are
-- numbers: the byte strings that they are serialized to.
use vcash.Prelude.{ℕ, Bool, true, false, List}

pub data OutputFeatures : Type 0 where
  plain coinbase token_issue token : OutputFeatures

pub data KernelFeatures : Type 0 where
  plain : (fee : ℕ) → KernelFeatures
  coinbase : KernelFeatures
  height_locked : (fee : ℕ) (lock_height : ℕ) → KernelFeatures

pub data TokenKernelFeatures : Type 0 where
  plain_token issue_token : TokenKernelFeatures
  height_locked_token : (lock_height : ℕ) → TokenKernelFeatures

pub record Input : Type 0 where
  pub features : OutputFeatures
  pub commit : ℕ

pub record TokenInput : Type 0 where
  pub features : OutputFeatures
  pub token_type : ℕ
  pub commit : ℕ

pub record Output : Type 0 where
  pub features : OutputFeatures
  pub commit : ℕ
  pub proof : ℕ

pub record TokenOutput : Type 0 where
  pub features : OutputFeatures
  pub token_type : ℕ
  pub commit : ℕ
  pub proof : ℕ

pub record TxKernel : Type 0 where
  pub features : KernelFeatures
  pub excess : ℕ
  pub excess_sig : ℕ

pub record TokenTxKernel : Type 0 where
  pub features : TokenKernelFeatures
  pub token_type : ℕ
  pub excess : ℕ
  pub excess_sig : ℕ

pub record TransactionBody : Type 0 where
  pub inputs : List Input
  pub token_inputs : List TokenInput
  pub outputs : List Output
  pub token_outputs : List TokenOutput
  pub kernels : List TxKernel
  pub token_kernels : List TokenTxKernel

pub record Transaction : Type 0 where
  pub offset : ℕ
  pub body : TransactionBody

-- `ser::Error` of the sort check.
pub data SerError : Type 0 where
  sort_error duplicate_error : SerError

pub data TxError : Type 0 where
  too_heavy : TxError
  cut_through_error : TxError
  aggregation_error : TxError
  token_type_mismatch : TxError
  invalid_output_features : TxError
  invalid_kernel_features : TxError
  issue_token_key_repeated : TxError
  issue_token_sum_mismatch : TxError
  unreach_token_support_height : TxError
  serialization : SerError → TxError
  secp : TxError
  committed : TxError
  kernel_sum_mismatch : TxError
  range_proof : TxError
  incorrect_signature : TxError

-- The hash of an item, as the number that its 32 bytes are, so that the order of the bytes is that of
-- the numbers. An input and an output are hashed over the same fields: an output's hash leaves out
-- its range proof. The hash function itself is BLAKE2b, from outside the repository.
pub record Digests : Type 0 where
  pub coin : OutputFeatures → ℕ → ℕ
  pub token : OutputFeatures → ℕ → ℕ → ℕ
  pub kernel : TxKernel → ℕ
  pub token_kernel : TokenTxKernel → ℕ

module _ (d : Digests) where
  abbrev pub input_hash : Input → ℕ
  input_hash x = d.coin x.features x.commit

  abbrev pub output_hash : Output → ℕ
  output_hash x = d.coin x.features x.commit

  abbrev pub token_input_hash : TokenInput → ℕ
  token_input_hash x = d.token x.features x.token_type x.commit

  abbrev pub token_output_hash : TokenOutput → ℕ
  token_output_hash x = d.token x.features x.token_type x.commit

abbrev pub is_plain : OutputFeatures → Bool
is_plain plain = true
is_plain coinbase = false
is_plain token_issue = false
is_plain token = false

abbrev pub is_tokenissue : OutputFeatures → Bool
is_tokenissue plain = false
is_tokenissue coinbase = false
is_tokenissue token_issue = true
is_tokenissue token = false

abbrev pub is_token : OutputFeatures → Bool
is_token plain = false
is_token coinbase = false
is_token token_issue = false
is_token token = true

abbrev pub is_coinbase : KernelFeatures → Bool
is_coinbase (plain fee) = false
is_coinbase coinbase = true
is_coinbase (height_locked fee lock_height) = false

abbrev pub is_issue_token : TokenKernelFeatures → Bool
is_issue_token plain_token = false
is_issue_token issue_token = true
is_issue_token (height_locked_token lock_height) = false
