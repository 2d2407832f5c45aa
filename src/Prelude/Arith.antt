-- ===== src/Prelude/Arith.antt =====
-- Division with a remainder, and products under an order.
use Prim.Native.Nat.{ℕ, ◌+◌, ◌*◌, ◌/◌, ◌%◌, ◌≤◌, ◌<◌}
use mathlib.Core.Path.{◌≡◌}
use native.Mathlib.Omega.{arith}
use native.Mathlib.Nat.{mul-add-div, div-eq_of_lt, mul-add-mod_self_left, mod-eq_of_lt}

pub mul_le : (c : ℕ) {a b : ℕ} → a ≤ b → c * a ≤ c * b
mul_le c h = grind arith

pub divide_unique : (i d r n : ℕ) → r < i → n ≡ i * d + r → (n / i ≡ d) × (n % i ≡ r)
divide_unique i d r n h e =
    let k : n / i ≡ d =
      rw (e, mul-add-div {m = i} (omega arith) d r, div-eq_of_lt h) (omega arith) in
    (k, rw (e, mul-add-mod_self_left i d r) (mod-eq_of_lt h))
