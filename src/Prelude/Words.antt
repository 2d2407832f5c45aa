-- ===== src/Prelude/Words.antt =====
-- Machine words: a value is a native number, and what a 64-bit operation drops is written out.
use Prim.Native.Nat.{ℕ, zero, suc, ◌+◌, ◌-◌, ◌*◌, ◌/◌, ◌%◌, ◌^◌, ◌≤◌, ◌<◌, min}
use mathlib.Core.Path.{◌≡◌, ap}
use native.Mathlib.Omega.{arith}
use native.Mathlib.Nat.{pow-suc, pow-le-pow_right}

abbrev pub u64_mod : ℕ
u64_mod = 2 ^ 64

-- What an unsigned 64-bit operation keeps of its exact result.
abbrev pub wrap64 : ℕ → ℕ
wrap64 x = x % u64_mod

-- `a - b` on 64-bit words.
abbrev pub sub64 : ℕ → ℕ → ℕ
sub64 a b = (a + u64_mod - b) % u64_mod

-- `a.saturating_add(b)` on 64-bit words.
abbrev pub saturating_add64 : ℕ → ℕ → ℕ
saturating_add64 a b = min (a + b) (u64_mod - 1)

-- `a >> k`: the processor reads the distance modulo 64.
abbrev pub shr64 : ℕ → ℕ → ℕ
shr64 a k = a / 2 ^ (k % 64)

pub pow_suc : (k : ℕ) → 2 ^ suc k ≡ 2 * 2 ^ k
pow_suc k = omega (arith, pow-suc 2 k)

pub pow_pos : (k : ℕ) → 0 < 2 ^ k
pow_pos zero = omega arith
pow_pos (suc k) = omega (arith, pow_pos k, pow_suc k)

pub pow-add : (i j : ℕ) → 2 ^ (i + j) ≡ 2 ^ i * 2 ^ j
pow-add zero j = let e : zero + j ≡ j = omega arith in rw e (omega arith)
pow-add (suc i) j =
    let e : suc i + j ≡ suc (i + j) = omega arith in
    rw e (omega (arith, pow_suc (i + j), pow-add i j, ap (λ (t : ℕ). t * 2 ^ j) (pow_suc i)))

pub pow_mono : (i j : ℕ) → i ≤ j → 2 ^ i ≤ 2 ^ j
pow_mono i j h = pow-le-pow_right (omega arith) h
