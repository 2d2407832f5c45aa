-- ===== src/Transaction/Kernel.antt =====
-- The binary forms of kernel features in core/src/core/transaction.rs: versions 1 and 2 of the protocol
-- for kernels, and the form of token kernels. A writer appends bytes, a reader takes them from the
-- front; `read_u8` and `read_u64` of core/src/ser.rs fail where the bytes end. Words are big-endian.
pub mod RoundTrip
mod Runs
use vcash.Prelude.{
  ℕ, zero, suc, ◌+◌, ◌*◌, ◌/◌, ◌%◌, ◌^◌, Bool, true, false, not, List, [], ◌∷◌, ◌++◌, Result, ok,
  err, fail_if, ◌>>=◌, ◌>>◌, ltb, ◌==◌, if◌then◌else◌,
}
use vcash.Transaction.Types.{
  KernelFeatures, plain, coinbase, height_locked, TokenKernelFeatures, plain_token, issue_token,
  height_locked_token,
}

pub data ReadError : Type 0 where
  io_error corrupted_data : ReadError

abbrev pub Reader {ℓ} : Type ℓ → Type ℓ
Reader A = List ℕ → Result ReadError (A × List ℕ)

-- The `count` low bytes of a number, the highest first.
pub write_bytes : ℕ → ℕ → List ℕ
write_bytes zero n = []
write_bytes (suc count) n = n / 256 ^ count % 256 ∷ write_bytes count n

abbrev pub write_u64 : ℕ → List ℕ
write_u64 = write_bytes 8

pub read_bytes : ℕ → ℕ → Reader ℕ
read_bytes zero n bytes = ok (n, bytes)
read_bytes (suc count) n [] = err io_error
read_bytes (suc count) n (b ∷ bytes) = read_bytes count (n * 256 + b) bytes

abbrev pub read_u64 : Reader ℕ
read_u64 = read_bytes 8 0

abbrev pub read_u8 : Reader ℕ
read_u8 [] = err io_error
read_u8 (b ∷ bytes) = ok (b, bytes)

abbrev pub as_u8 : KernelFeatures → ℕ
as_u8 (plain fee) = 0
as_u8 coinbase = 1
as_u8 (height_locked fee lock_height) = 2

unfoldable pub write_v1 : KernelFeatures → List ℕ
write_v1 (plain fee) = 0 ∷ (write_u64 fee ++ write_u64 0)
write_v1 coinbase = 1 ∷ (write_u64 0 ++ write_u64 0)
write_v1 (height_locked fee lock_height) = 2 ∷ (write_u64 fee ++ write_u64 lock_height)

unfoldable pub write_v2 : KernelFeatures → List ℕ
write_v2 (plain fee) = 0 ∷ write_u64 fee
write_v2 coinbase = 1 ∷ []
write_v2 (height_locked fee lock_height) = 2 ∷ (write_u64 fee ++ write_u64 lock_height)

-- The match of `read_v1` on the feature byte; words that a variant does not use must be 0.
unfoldable pub features_v1 : ℕ → ℕ → ℕ → Result ReadError KernelFeatures
features_v1 zero fee lock_height = do
  fail_if (not (lock_height == 0)) corrupted_data
  ok (plain fee)
features_v1 (suc zero) fee lock_height = do
  fail_if (not (fee == 0)) corrupted_data
  fail_if (not (lock_height == 0)) corrupted_data
  ok coinbase
features_v1 (suc (suc zero)) fee lock_height = ok (height_locked fee lock_height)
features_v1 (suc (suc (suc n))) fee lock_height = err corrupted_data

unfoldable pub read_v1 : Reader KernelFeatures
read_v1 bytes = do
  (feature_byte, rest) ← read_u8 bytes
  (fee, rest') ← read_u64 rest
  (lock_height, rest'') ← read_u64 rest'
  features ← features_v1 feature_byte fee lock_height
  ok (features, rest'')

-- The arms of the match of `read_v2`.
unfoldable pub features_v2 : ℕ → Reader KernelFeatures
features_v2 zero bytes = do (fee, rest) ← read_u64 bytes; ok (plain fee, rest)
features_v2 (suc zero) bytes = ok (coinbase, bytes)
features_v2 (suc (suc zero)) bytes = do
  (fee, rest) ← read_u64 bytes
  (lock_height, rest') ← read_u64 rest
  ok (height_locked fee lock_height, rest')
features_v2 (suc (suc (suc n))) bytes = err corrupted_data

unfoldable pub read_v2 : Reader KernelFeatures
read_v2 bytes = do (feature_byte, rest) ← read_u8 bytes; features_v2 feature_byte rest

-- Whether the writer hashes, and the version of the protocol.
unfoldable pub write : Bool → ℕ → KernelFeatures → List ℕ
write hashing version features =
    if hashing
    then write_v1 features
    else (if ltb version 2 then write_v1 features else write_v2 features)

unfoldable pub read : ℕ → Reader KernelFeatures
read version bytes = if ltb version 2 then read_v1 bytes else read_v2 bytes

unfoldable pub write_token : TokenKernelFeatures → List ℕ
write_token plain_token = 0 ∷ []
write_token issue_token = 1 ∷ []
write_token (height_locked_token lock_height) = 2 ∷ write_u64 lock_height

unfoldable pub token_features : ℕ → Reader TokenKernelFeatures
token_features zero bytes = ok (plain_token, bytes)
token_features (suc zero) bytes = ok (issue_token, bytes)
token_features (suc (suc zero)) bytes = do
  (lock_height, rest) ← read_u64 bytes
  ok (height_locked_token lock_height, rest)
token_features (suc (suc (suc n))) bytes = err corrupted_data

unfoldable pub read_token : Reader TokenKernelFeatures
read_token bytes = do (feature_byte, rest) ← read_u8 bytes; token_features feature_byte rest
