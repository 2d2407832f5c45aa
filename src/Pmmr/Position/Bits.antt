-- ===== src/Pmmr/Position/Bits.antt =====
-- Binary digits of words: how many there are, and how many are 1.
use native.Mathlib.Decide.{dec_lt}
use vcash.Prelude.{
  ℕ, zero, suc, ◌+◌, ◌-◌, ◌*◌, ◌/◌, ◌%◌, ◌^◌, ◌≤◌, ◌<◌, ◌≡◌, refl, ap, ◌∙◌, arith, u64_mod, shr64,
  pow_suc, pow_pos, pow-add, pow_mono, divide_unique, mul_le, ◌==◌, inl, inr, Bool-cases, ==→eq,
}
use vcash.Pmmr.Position.{digits, leading_zeros, ones, all_ones}

-- The digits of a word bound it from above.
pub digits_lt : (fuel n : ℕ) → n < 2 ^ fuel → n < 2 ^ digits fuel n
unfolding digits
digits_lt zero n h = h
digits_lt (suc fuel) n h = elim (Bool-cases (n == 0)) [
  | inl z ↦ rw z (omega (arith, ==→eq n 0 z))
  | inr p ↦ rw (p, pow_suc) (omega (arith, digits_lt fuel (n / 2) (omega (arith, pow_suc fuel))))
]

pub digits_le : (fuel n : ℕ) → digits fuel n ≤ fuel
unfolding digits
digits_le zero n = omega arith
digits_le (suc fuel) n = ground (arith, digits_le fuel (n / 2))

pub ones_le : (k n : ℕ) → ones k n ≤ n
unfolding ones
ones_le zero n = omega arith
ones_le (suc k) n = omega (arith, ones_le k (n / 2))

pub ones_le_digits : (k n : ℕ) → ones k n ≤ k
unfolding ones
ones_le_digits zero n = omega arith
ones_le_digits (suc k) n = omega (arith, ones_le_digits k (n / 2))

-- More digits than a number has change nothing.
pub ones_stable : (k n : ℕ) → n < 2 ^ k → ones (suc k) n ≡ ones k n
unfolding ones
ones_stable zero n h = omega arith
ones_stable (suc k) n h = omega (arith, ones_stable k (n / 2) (omega (arith, pow_suc k)))

ones_more : (i k n : ℕ) → n < 2 ^ k → ones (i + k) n ≡ ones k n
ones_more zero k n h = let e : zero + k ≡ k = omega arith in rw e refl
ones_more (suc i) k n h =
    let e : suc i + k ≡ suc (i + k) = omega arith in
    rw e
      (ones_stable (i + k) n (omega (arith, pow_mono k (i + k) (omega arith))) ∙ ones_more i k n h)

-- The ones of a word, counted over any number of digits that hold it.
pub ones_word : (k n : ℕ) → n < 2 ^ k → k ≤ 64 → ones 64 n ≡ ones k n
ones_word k n h le = let e : 64 - k + k ≡ 64 = omega arith in rw e at (ones_more (64 - k) k n h)

pub ones_digit : (k n b m : ℕ) → n % 2 ≡ b → n / 2 ≡ m → ones (suc k) n ≡ b + ones k m
unfolding ones
ones_digit k n b m e d = rw (e, d) refl

pub ones_top : (k n : ℕ) → n < 2 ^ k → ones (suc k) (2 ^ k + n) ≡ suc (ones k n)
unfolding ones
ones_top zero n h = omega arith
ones_top (suc k) n h =
    let even : (2 ^ suc k + n) / 2 ≡ 2 ^ k + n / 2 = omega (arith, pow_suc k) in
    let bit : (2 ^ suc k + n) % 2 ≡ n % 2 = omega (arith, pow_suc k) in
    let ih : ones (suc k) (2 ^ k + n / 2) ≡ suc (ones k (n / 2)) =
      ones_top k (n / 2) (omega (arith, pow_suc k)) in
    ones_digit (suc k) (2 ^ suc k + n) (n % 2) (2 ^ k + n / 2) bit even ∙ omega (arith, ih)

-- The ones of `(q + 1) * 2 ^ h - 1` are those of `q`, and `h` more.
pub ones_low : (h k n q : ℕ) → n + 1 ≡ (q + 1) * 2 ^ h → n < 2 ^ k → ones k n ≡ ones k q + h
unfolding ones
ones_low zero k n q e lt = let same : n ≡ q = omega (arith, e) in rw same (omega arith)
ones_low (suc h) zero n q e lt =
    absurd (
      omega (arith, pow_suc h, mul_le (q + 1) (pow_pos h), ap (λ (t : ℕ). (q + 1) * t) (pow_suc h)))
ones_low (suc h) (suc k) n q e lt =
    let whole : n + 1 ≡ 2 * ((q + 1) * 2 ^ h) =
      omega (arith, ap (λ (t : ℕ). (q + 1) * t) (pow_suc h)) in
    let half : n / 2 + 1 ≡ (q + 1) * 2 ^ h = omega (arith, mul_le (q + 1) (pow_pos h)) in
    let low : n / 2 < 2 ^ k = omega (arith, pow_suc k) in
    let small : q < 2 ^ k = omega (arith, mul_le (q + 1) (pow_pos h)) in
    omega (arith, ones_low h k (n / 2) q half low, ones_stable k q small)

-- Zeros at the low end add no ones.
pub ones_shift : (h k x : ℕ) → x * 2 ^ h < 2 ^ k → ones k (x * 2 ^ h) ≡ ones k x
ones_shift zero k x lt = ap (ones k) (omega arith)
ones_shift (suc h) zero x lt = unfold ones in refl
ones_shift (suc h) (suc k) x lt =
    let double : x * 2 ^ suc h ≡ 2 * (x * 2 ^ h) =
      omega (arith, ap (λ (t : ℕ). x * t) (pow_suc h)) in
    let low : x * 2 ^ h < 2 ^ k = omega (arith, pow_suc k) in
    let small : x < 2 ^ k = omega (arith, mul_le x (pow_pos h)) in
    ones_digit k (x * 2 ^ suc h) 0 (x * 2 ^ h) (omega arith) (omega arith)
    ∙ omega (arith, ones_shift h k x low, ones_stable k x small)

-- The ones of `2 p` and of `2 p + 1`.
pub ones_even : (p : ℕ) → 2 * p < u64_mod → ones 64 (2 * p) ≡ ones 64 p
ones_even p h =
    ones_digit 63 (2 * p) 0 p (omega arith) (omega arith)
    ∙ omega (arith, ones_stable 63 p (omega arith))

pub ones_odd : (p : ℕ) → 2 * p < u64_mod → ones 64 (2 * p + 1) ≡ suc (ones 64 p)
ones_odd p h =
    ones_digit 63 (2 * p + 1) 1 p (omega arith) (omega arith)
    ∙ omega (arith, ones_stable 63 p (omega arith))

digits_pos : (fuel n : ℕ) → 0 < n → 0 < fuel → 0 < digits fuel n
unfolding digits
digits_pos zero n p h = absurd (omega arith)
digits_pos (suc fuel) n p h = ground arith

mul-pred : (i p : ℕ) → 0 < i → 0 < p → i * p ≡ i * (p - 1) + (i - 1) + 1
mul-pred i zero hi hp = absurd (omega arith)
mul-pred i (suc p) hi hp = let e : suc p - 1 ≡ p = omega arith in rw e (omega arith)

full_shr : (d : ℕ) → 0 < d → d ≤ 64 → shr64 all_ones (64 - d) + 1 ≡ 2 ^ d
full_shr d p h =
    let back : 64 - d + d ≡ 64 = omega arith in
    let whole : 2 ^ 64 ≡ 2 ^ (64 - d) * 2 ^ d = rw back at (pow-add (64 - d) d) in
    let distance : (64 - d) % 64 ≡ 64 - d = omega arith in
    let parts = mul-pred (2 ^ (64 - d)) (2 ^ d) (pow_pos (64 - d)) (pow_pos d) in
    let (quotient, _) =
      divide_unique (2 ^ (64 - d)) (2 ^ d - 1) (2 ^ (64 - d) - 1) all_ones
        (omega (arith, pow_pos (64 - d))) (omega (arith, whole, parts)) in
    rw (distance, quotient) (omega (arith, pow_pos d))

-- `ALL_ONES >> leading_zeros(n)` has as many digits as `n`, all of them 1.
pub all_ones_shr : (n : ℕ) → 0 < n → shr64 all_ones (leading_zeros n) + 1 ≡ 2 ^ digits 64 n
all_ones_shr n p = full_shr (digits 64 n) (digits_pos 64 n p (omega arith)) (digits_le 64 n)

pub ones_suc : (k n : ℕ) → ones k (n + 1) ≤ ones k n + 1
unfolding ones
ones_suc zero n = omega arith
ones_suc (suc k) n = elim (dec_lt 0 (n % 2)) [
  | yes odd ↦
      let half : (n + 1) / 2 ≡ n / 2 + 1 = omega arith in
      rw half (omega (arith, ones_suc k (n / 2)))
  | no even ↦ let half : (n + 1) / 2 ≡ n / 2 = omega arith in rw half (omega arith)
]
