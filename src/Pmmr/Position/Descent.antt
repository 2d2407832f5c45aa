-- ===== src/Pmmr/Position/Descent.antt =====
-- The loop of `peak_map_height` at a node of the mountain range.
use vcash.Prelude.{
  ℕ, zero, suc, ◌+◌, ◌-◌, ◌*◌, ◌/◌, ◌^◌, ◌≤◌, ◌<◌, ◌≡◌, ◌≢◌, refl, sym, ap, ◌∙◌, arith, u64_mod,
  shr64, pow_suc, pow_pos, pow-add, pow_mono, mul_le, ◌==◌, inl, inr, ◌⊎◌, Bool-cases, ne→not_==,
  ==→eq, not_==→ne, le→leb, lt→not_leb,
}
use mathlib.Core.Path.{subst, ap₂}
use native.Mathlib.Decide.{dec_lt}
use vcash.Pmmr.Position.{
  digits, leading_zeros, ones, all_ones, shl1, or1, map_loop, peak_map_height,
}
use vcash.Pmmr.Position.Bits.{
  digits_lt, digits_le, ones_word, ones_le, ones_stable, ones_top, ones_low, all_ones_shr,
}

-- The number of nodes of a mountain range with `n` leaves, and the leaves before them: `n < 2 ^ k`.
abbrev pub size_of : ℕ → ℕ → ℕ
size_of k n = 2 * n - ones k n

-- With `n + 1` leaves the node of height `h` over the last leaf is there; or all `k` digits are 1.
abbrev pub Complete : ℕ → ℕ → ℕ → Type 0
Complete k n h = ((q : ℕ) × (n + 1 ≡ (q + 1) * 2 ^ h)) ⊎ (n + 1 ≡ 2 ^ k)

size_top : (k n : ℕ) → n < 2 ^ k → size_of (suc k) (2 ^ k + n) ≡ 2 ^ suc k - 1 + size_of k n
size_top k n h = omega (arith, ones_top k n h, ones_le k n, pow_suc k, pow_pos k)

size_stable : (k n : ℕ) → n < 2 ^ k → size_of (suc k) n ≡ size_of k n
size_stable k n h = omega (arith, ones_stable k n h)

-- Before a digit that is 0, what is left is smaller than the peak of that digit.
size_small : (k n h q : ℕ) → n + 1 ≡ (q + 1) * 2 ^ h → n < 2 ^ k → size_of k n + h + 1 < 2 ^ suc k
size_small k n h q e lt = omega (arith, ones_low h k n q e lt, pow_suc k, ones_le k n)

lt_of_mul-lt : (a b c : ℕ) → a * c < b * c → a < b
lt_of_mul-lt a b c h = elim (dec_lt a b) [
  | yes lt ↦ lt
  | no ge ↦ absurd (omega (arith, mul_le c (not_lt a b ge)))
]
  where
    not_lt : (a b : ℕ) → ¬ (a < b) → b ≤ a
    not_lt a b h = omega arith

Complete-down : (k n h : ℕ) → Complete (suc k) (2 ^ k + n) h → n < 2 ^ k → Complete k n h
Complete-down k n h (inr e) lt = inr (omega (arith, pow_suc k))
Complete-down k n h (inl (q, e)) lt = elim (dec_lt k h) [
  | yes above ↦ inr (omega (arith, pow_mono (suc k) h above, pow_suc k))
  | no below ↦
      let back : k - h + h ≡ k = omega arith in
      let p = 2 ^ (k - h) in
      let split : 2 ^ k ≡ p * 2 ^ h = rw back at (pow-add (k - h) h) in
      let low : p < q + 1 = lt_of_mul-lt p (q + 1) (2 ^ h) (omega arith) in
      let rest : q ≡ q - p + p = omega arith in
      inl (q - p, omega (arith, ap (λ (t : ℕ). (t + 1) * 2 ^ h) rest))
]

map_taken :
    (fuel ps m pos : ℕ)
    → 0 < ps
    → ps ≤ pos
    → 2 * m < u64_mod
    → map_loop (suc fuel) ps m pos ≡ map_loop fuel (ps / 2) (2 * m + 1) (pos - ps)
unfolding map_loop
map_taken fuel ps m pos hp hpos hm =
    let bit : or1 (shl1 m) ≡ 2 * m + 1 = omega arith in
    rw (ne→not_== ps 0 (omega arith), le→leb ps pos hpos, bit) refl

map_skipped :
    (fuel ps m pos : ℕ)
    → pos < ps
    → 2 * m < u64_mod
    → map_loop (suc fuel) ps m pos ≡ map_loop fuel (ps / 2) (2 * m) pos
unfolding map_loop
map_skipped fuel ps m pos hpos hm =
    let bit : shl1 m ≡ 2 * m = omega arith in
    rw (ne→not_== ps 0 (omega arith), lt→not_leb ps pos hpos, bit) refl

zero-Complete : (k n h : ℕ) → Complete (suc k) n h → n < 2 ^ k → (q : ℕ) × (n + 1 ≡ (q + 1) * 2 ^ h)
zero-Complete k n h (inl c) lt = c
zero-Complete k n h (inr e) lt = absurd (omega (arith, pow_suc k))

-- One round of the loops over the peaks: the digit `k` of `n` is 0 and its peak is larger than what
-- is left, or it is 1 and the peak is taken off.
pub data Round (k n h : ℕ) : Type 0 where
  skipped :
      n < 2 ^ k
      → size_of (suc k) n + h ≡ size_of k n + h
      → size_of k n + h < 2 ^ suc k - 1
      → Complete k n h
      → Round k n h
  taken :
      (r : ℕ)
      → 2 ^ k + r ≡ n
      → r < 2 ^ k
      → size_of (suc k) n + h ≡ 2 ^ suc k - 1 + (size_of k r + h)
      → Complete k r h
      → Round k n h

pub round : (k n h : ℕ) → n < 2 ^ suc k → Complete (suc k) n h → Round k n h
round k n h lt c = elim (dec_lt n (2 ^ k)) [
  | yes zero_bit ↦
      let (q, e) = zero-Complete k n h c zero_bit in
      skipped zero_bit (ap (λ (t : ℕ). t + h) (size_stable k n zero_bit))
        (omega (arith, size_small k n h q e zero_bit)) (inl (q, e))
  | no one_bit ↦
      let r = n - 2 ^ k in
      let e : 2 ^ k + r ≡ n = omega arith in
      let low : r < 2 ^ k = omega (arith, pow_suc k) in
      taken r e low
        (ap (λ (t : ℕ). size_of (suc k) t + h) (sym e) ∙ omega (arith, size_top k r low))
        (Complete-down k r h (subst (λ t. Complete (suc k) t h) (sym e) c) low)
]

-- The next peak's size.
pub half_peak : (k : ℕ) → (2 ^ suc k - 1) / 2 ≡ 2 ^ k - 1
half_peak k = omega (arith, pow_suc k, pow_pos k)

-- One loop for the bits from `k - 1` down, whatever is in the bitmap and whatever fuel is left.
map_loop-node :
    (k fuel n h m : ℕ)
    → k ≤ fuel
    → n < 2 ^ k
    → Complete k n h
    → m * 2 ^ k + n < u64_mod
    → map_loop fuel (2 ^ k - 1) m (size_of k n + h) ≡ (m * 2 ^ k + n, h)
map_loop-node zero zero n h m f lt c fits = unfold map_loop ones in ground arith
map_loop-node zero (suc fuel) n h m f lt c fits = unfold map_loop ones in ground arith
map_loop-node (suc k) zero n h m f lt c fits = absurd (omega arith)
map_loop-node (suc k) (suc fuel) n h m f lt c fits =
    let double : m * 2 ^ suc k ≡ 2 * m * 2 ^ k = omega (arith, ap (λ (t : ℕ). m * t) (pow_suc k)) in
    let small : m ≤ m * 2 ^ k = omega (arith, mul_le m (pow_pos k)) in
    elim (round k n h lt c) [
      | skipped zero_bit same fit rest ↦
          ap (map_loop (suc fuel) (2 ^ suc k - 1) m) same
          ∙ map_skipped fuel (2 ^ suc k - 1) m (size_of k n + h) fit (omega arith)
          ∙ ap (λ (t : ℕ). map_loop fuel t (2 * m) (size_of k n + h)) (half_peak k)
          ∙ map_loop-node k fuel n h (2 * m) (omega arith) zero_bit rest (omega arith)
          ∙ ap (λ (t : ℕ). (t + n, h)) (sym double)
      | taken r e low sizes rest ↦
          let left : 2 ^ suc k - 1 + (size_of k r + h) - (2 ^ suc k - 1) ≡ size_of k r + h =
            omega arith in
          let bits : (2 * m + 1) * 2 ^ k + r ≡ m * 2 ^ suc k + n = omega arith in
          ap (map_loop (suc fuel) (2 ^ suc k - 1) m) sizes
          ∙ map_taken fuel (2 ^ suc k - 1) m (2 ^ suc k - 1 + (size_of k r + h))
              (omega (arith, pow_suc k, pow_pos k)) (omega arith) (omega arith)
          ∙ ap₂ (λ (t u : ℕ). map_loop fuel t (2 * m + 1) u) (half_peak k) left
          ∙ map_loop-node k fuel r h (2 * m + 1) (omega arith) low rest (omega arith)
          ∙ ap (λ (t : ℕ). (t, h)) bits
    ]

-- Where the loops start at a size or position that is not 0: with its `d` digits.
pub start_size :
    (n h : ℕ)
    → size_of 64 n + h < u64_mod
    → size_of 64 n + h ≢ 0
    → (d : ℕ) × (d ≤ 64)
      × (n < 2 ^ d)
      × (size_of 64 n + h ≡ size_of d n + h)
      × (shr64 all_ones (leading_zeros (size_of 64 n + h)) ≡ 2 ^ d - 1)
start_size n h fits some =
    let pos = size_of 64 n + h in
    let d = digits 64 pos in
    let lt : pos < 2 ^ d = digits_lt 64 pos fits in
    let below : n < 2 ^ d = omega (arith, ones_le 64 n) in
    let count : ones 64 n ≡ ones d n = ones_word d n below (digits_le 64 pos) in
    (
      d,
      digits_le 64 pos,
      below,
      ap (λ (t : ℕ). 2 * n - t + h) count,
      omega (arith, all_ones_shr pos (omega arith)),
    )

-- At size 0 there is neither leaf nor height.
pub start_zero : (n h : ℕ) → size_of 64 n + h ≡ 0 → (n ≡ 0) × (h ≡ 0)
start_zero n h e = (omega (arith, ones_le 64 n), omega arith)

-- With the node's height `h` on top of the nodes over the first `n` leaves.
pub peak_map_height-size :
    (n h q : ℕ)
    → n + 1 ≡ (q + 1) * 2 ^ h
    → size_of 64 n + h < u64_mod
    → n < u64_mod
    → peak_map_height (size_of 64 n + h) ≡ (n, h)
unfolding peak_map_height
peak_map_height-size n h q e fits low = elim (Bool-cases (size_of 64 n + h == 0)) [
  | inl z ↦
      let (n0, h0) = start_zero n h (==→eq _ 0 z) in
      rw z (ap₂ (λ (a b : ℕ). (a, b)) (sym n0) (sym h0))
  | inr p ↦
      let (d, le, below, same, start) = start_size n h fits (not_==→ne _ 0 p) in
      rw p (
        ap₂ (λ (a b : ℕ). map_loop 64 a 0 b) start same
        ∙ map_loop-node d 64 n h 0 le below (inl (q, e)) (omega arith)
        ∙ ap (λ (t : ℕ). (t, h)) (omega arith))
]
