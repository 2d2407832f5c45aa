-- ===== src/Transaction/Kernel/RoundTrip.antt =====
-- What is written of kernel features is read back.
use native.Mathlib.Nat.{pow-suc, mod-add-div, mod-lt}
use vcash.Prelude.{
  ℕ, zero, suc, ◌+◌, ◌*◌, ◌/◌, ◌%◌, ◌^◌, ◌≤◌, ◌<◌, ◌≡◌, refl, ap, ◌∙◌, false, List, [], ◌∷◌, ◌++◌,
  Result, ok, ◌>>=◌, ltb, arith, u64_mod, Bool-cases, divide_unique, mul_le, inl, inr,
}
use vcash.Transaction.Types.{
  KernelFeatures, plain, coinbase, height_locked, TokenKernelFeatures, plain_token, issue_token,
  height_locked_token,
}
use vcash.Transaction.Kernel.{
  ReadError, write_bytes, read_bytes, write_u64, read_u64, write_v1, write_v2, read_v1, read_v2,
  features_v1, features_v2, write, read, write_token, read_token, token_features,
}

power_pos : (c : ℕ) → 0 < 256 ^ c
power_pos zero = omega arith
power_pos (suc c) = omega (arith, pow-suc 256 c, power_pos c)

-- One byte more of the remainder.
digit : (n p : ℕ) → 0 < p → n % (256 * p) ≡ (n / p % 256) * p + n % p
digit n p pos =
    let q = n / p in
    let r = n % p in
    let e : n ≡ (256 * p) * (q / 256) + ((q % 256) * p + r) =
      let split : q ≡ 256 * (q / 256) + q % 256 = omega arith in
      omega (arith, mod-add-div n p, ap (λ (t : ℕ). p * t) split) in
    let low : (q % 256) * p + r < 256 * p =
      let b : q % 256 ≤ 255 = omega arith in omega (arith, mul_le p b, mod-lt n pos) in
    (divide_unique (256 * p) (q / 256) ((q % 256) * p + r) n low e).1

read_bytes-write_bytes :
    (count acc n : ℕ) (rest : List ℕ)
    → read_bytes count acc (write_bytes count n ++ rest)
      ≡ ok (acc * 256 ^ count + n % 256 ^ count, rest)
unfolding read_bytes write_bytes
read_bytes-write_bytes zero acc n rest = ap (λ (v : ℕ). ok (v, rest)) (omega arith)
read_bytes-write_bytes (suc c) acc n rest =
    let p = 256 ^ c in
    let d = n / p % 256 in
    let s = pow-suc 256 c in
    let e : (acc * 256 + d) * p + n % p ≡ acc * 256 ^ suc c + n % 256 ^ suc c =
      let whole : 256 ^ suc c ≡ 256 * p = omega (arith, s) in
      let low : n % 256 ^ suc c ≡ d * p + n % p =
        ap (λ (t : ℕ). n % t) whole ∙ digit n p (power_pos c) in
      omega (arith, low, ap (λ (t : ℕ). acc * t) whole) in
    read_bytes-write_bytes c (acc * 256 + d) n rest ∙ ap (λ (v : ℕ). ok (v, rest)) e

-- A 64-bit word is read back from its bytes, whatever follows.
read_u64-write_u64 :
    (n : ℕ) (rest : List ℕ) → n < u64_mod → read_u64 (write_u64 n ++ rest) ≡ ok (n, rest)
read_u64-write_u64 n rest lt =
    read_bytes-write_bytes 8 0 n rest ∙ ap (λ (v : ℕ). ok (v, rest)) (omega arith)

append_assoc : (xs ys zs : List ℕ) → (xs ++ ys) ++ zs ≡ xs ++ (ys ++ zs)
append_assoc [] ys zs = refl
append_assoc (x ∷ xs) ys zs = ap (◌∷◌ x) (append_assoc xs ys zs)

-- The fee and the lock height are 64-bit words.
unfoldable pub InRange : KernelFeatures → Type 0
InRange (plain fee) = fee < u64_mod
InRange coinbase = Unit
InRange (height_locked fee lock_height) = (fee < u64_mod) × (lock_height < u64_mod)

two_words :
    (a b : ℕ) (rest : List ℕ)
    → a < u64_mod
    → b < u64_mod
    → {A : Type 0} (k : ℕ → ℕ → List ℕ → Result ReadError A)
    → (read_u64 ((write_u64 a ++ write_u64 b) ++ rest) >>= λ (x, r).
        read_u64 r >>= λ (y, r'). k x y r')
      ≡ k a b rest
two_words a b rest la lb k =
    let e =
      ap read_u64 (append_assoc (write_u64 a) (write_u64 b) rest)
      ∙ read_u64-write_u64 a (write_u64 b ++ rest) la in
    ap (λ o. o >>= λ (x, r). read_u64 r >>= λ (y, r'). k x y r') e
    ∙ ap (λ o. o >>= λ (y, r'). k a y r') (read_u64-write_u64 b rest lb)

read_v1-write_v1 :
    (f : KernelFeatures) (rest : List ℕ) → InRange f → read_v1 (write_v1 f ++ rest) ≡ ok (f, rest)
unfolding read_v1 write_v1 features_v1 InRange
read_v1-write_v1 (plain fee) rest lt = two_words fee 0 rest lt (omega arith) _
read_v1-write_v1 coinbase rest lt = two_words 0 0 rest (omega arith) (omega arith) _
read_v1-write_v1 (height_locked fee lock_height) rest (lf, ll) =
    two_words fee lock_height rest lf ll _

read_v2-write_v2 :
    (f : KernelFeatures) (rest : List ℕ) → InRange f → read_v2 (write_v2 f ++ rest) ≡ ok (f, rest)
unfolding read_v2 write_v2 features_v2 InRange
read_v2-write_v2 (plain fee) rest lt =
    ap (λ o. o >>= λ (x, r). ok (plain x, r)) (read_u64-write_u64 fee rest lt)
read_v2-write_v2 coinbase rest lt = refl
read_v2-write_v2 (height_locked fee lock_height) rest (lf, ll) =
    two_words fee lock_height rest lf ll _

-- In every version of the protocol, kernel features with a fee and a lock height of 64 bits are read
-- back from what is written of them, and exactly what was written is taken from the bytes.
pub read-write :
    (version : ℕ) (f : KernelFeatures) (rest : List ℕ)
    → InRange f
    → read version (write false version f ++ rest) ≡ ok (f, rest)
unfolding read write
read-write version f rest range = elim (Bool-cases (ltb version 2)) [
  | inl old ↦ rw old (read_v1-write_v1 f rest range)
  | inr new ↦ rw new (read_v2-write_v2 f rest range)
]

unfoldable pub TokenInRange : TokenKernelFeatures → Type 0
TokenInRange plain_token = Unit
TokenInRange issue_token = Unit
TokenInRange (height_locked_token lock_height) = lock_height < u64_mod

-- Token kernel features with a lock height of 64 bits are read back from what is written of them.
pub read_token-write_token :
    (f : TokenKernelFeatures) (rest : List ℕ)
    → TokenInRange f
    → read_token (write_token f ++ rest) ≡ ok (f, rest)
unfolding read_token write_token token_features TokenInRange
read_token-write_token plain_token rest range = refl
read_token-write_token issue_token rest range = refl
read_token-write_token (height_locked_token lock_height) rest range =
    ap (λ o. o >>= λ (x, r). ok (height_locked_token x, r))
      (read_u64-write_u64 lock_height rest range)
