-- ===== src/Pmmr/Position/Peaks.antt =====
-- The peaks of a mountain range from its size.
use mathlib.Core.Path.{ap₂}
use mathlib.Core.List.{append_assoc, append-nil}
use vcash.Prelude.{
  ℕ, zero, suc, ◌+◌, ◌-◌, ◌*◌, ◌/◌, ◌^◌, ◌≤◌, ◌<◌, ◌≡◌, refl, sym, ap, ◌∙◌, arith, u64_mod, wrap64,
  shr64, List, [], ◌∷◌, ◌++◌, ltb, ◌==◌, if◌then◌else◌, ne→not_==, le→leb, lt→not_leb, lt→ltb,
  le→not_ltb, Bool-cases, inl, inr, ==→eq, not_==→ne, pow_suc, pow_pos, pow_mono, mul_le,
}
use vcash.Pmmr.Position.{ones, count_ones, leading_zeros, all_ones}
use vcash.Pmmr.Position.{peaks_loop, peaks}
use vcash.Pmmr.Position.Bits.{ones_le, ones_even, ones_odd}
use vcash.Pmmr.Position.Descent.{
  size_of, Complete, skipped, taken, round, half_peak, start_size, start_zero,
}
use vcash.Pmmr.Position.Node.{node_pos}

-- The positions of the peaks over the `n` leaves after the first `m * 2 ^ k`, for `n < 2 ^ k`: for
-- each digit 1 of `n` the node of that height that comes next.
pub peak_nodes : ℕ → ℕ → ℕ → List ℕ
peak_nodes zero m n = []
peak_nodes (suc k) m n =
    if ltb n (2 ^ k)
    then peak_nodes k (2 * m) n
    else node_pos (2 * m) k ∷ peak_nodes k (2 * m + 1) (n - 2 ^ k)

peaks_taken :
    (fuel ps left sum : ℕ) (found : List ℕ)
    → 0 < ps
    → ps ≤ left
    → sum + ps < u64_mod
    → peaks_loop (suc fuel) ps left sum found
      ≡ peaks_loop fuel (ps / 2) (left - ps) (sum + ps) (found ++ ((sum + ps) ∷ []))
unfolding peaks_loop
peaks_taken fuel ps left sum found hp le fits =
    let e : wrap64 (sum + ps) ≡ sum + ps = omega arith in
    rw (ne→not_== ps 0 (omega arith), le→leb ps left le, e) refl

peaks_skipped :
    (fuel ps left sum : ℕ) (found : List ℕ)
    → left < ps
    → peaks_loop (suc fuel) ps left sum found ≡ peaks_loop fuel (ps / 2) left sum found
unfolding peaks_loop
peaks_skipped fuel ps left sum found lt =
    rw (ne→not_== ps 0 (omega arith), lt→not_leb ps left lt) refl

peak_nodes-skipped : (k m n : ℕ) → n < 2 ^ k → peak_nodes (suc k) m n ≡ peak_nodes k (2 * m) n
unfolding peak_nodes
peak_nodes-skipped k m n h = rw (lt→ltb n (2 ^ k) h) refl

peak_nodes-taken :
    (k m r n : ℕ)
    → 2 ^ k + r ≡ n
    → peak_nodes (suc k) m n ≡ node_pos (2 * m) k ∷ peak_nodes k (2 * m + 1) r
unfolding peak_nodes
peak_nodes-taken k m r n e =
    rw (le→not_ltb n (2 ^ k) (omega arith))
      (ap (λ (t : ℕ). node_pos (2 * m) k ∷ peak_nodes k (2 * m + 1) t) (omega arith))

-- The nodes over the leaves to the left of a peak.
before : ℕ → ℕ → ℕ
before k m = m * 2 ^ suc k - count_ones m

before_even : (k m : ℕ) → 2 * m < u64_mod → before (suc k) m ≡ before k (2 * m)
unfolding before
before_even k m low = omega (arith, ones_even m low, ap (λ (t : ℕ). m * t) (pow_suc (suc k)))

before_peak : (k m : ℕ) → 2 * m < u64_mod → before (suc k) m + (2 ^ suc k - 1) ≡ node_pos (2 * m) k
unfolding before
before_peak k m low = omega (
  arith,
  ones_even m low,
  ap (λ (t : ℕ). m * t) (pow_suc (suc k)),
  ones_le 64 m,
  mul_le m (pow_pos (suc k)),
  pow_pos (suc k),
)

before_odd : (k m : ℕ) → 2 * m < u64_mod → node_pos (2 * m) k ≡ before k (2 * m + 1)
unfolding before
before_odd k m low = omega (arith, ones_even m low, ones_odd m low)

peaks_loop-size :
    (k fuel n h m : ℕ) (found : List ℕ)
    → k ≤ fuel
    → n < 2 ^ k
    → Complete k n h
    → m * 2 ^ k + n < u64_mod
    → before k m + (size_of k n + h) < u64_mod
    → peaks_loop fuel (2 ^ k - 1) (size_of k n + h) (before k m) found
      ≡ (found ++ peak_nodes k m n, h)
peaks_loop-size zero zero n h m found f lt c low fits =
    unfold peaks_loop peak_nodes ones in
    ap₂ (λ (a : List ℕ) (b : ℕ). (a, b)) (sym (append-nil found)) (omega arith)
peaks_loop-size zero (suc fuel) n h m found f lt c low fits =
    unfold peaks_loop peak_nodes ones in
    ap₂ (λ (a : List ℕ) (b : ℕ). (a, b)) (sym (append-nil found)) (omega arith)
peaks_loop-size (suc k) zero n h m found f lt c low fits = absurd (omega arith)
peaks_loop-size (suc k) (suc fuel) n h m found f lt c low fits =
    let small : m ≤ m * 2 ^ k = omega (arith, mul_le m (pow_pos k)) in
    let double : m * 2 ^ suc k ≡ 2 * (m * 2 ^ k) =
      omega (arith, ap (λ (t : ℕ). m * t) (pow_suc k)) in
    let low' : 2 * m < u64_mod = omega arith in
    let same_sum : before (suc k) m ≡ before k (2 * m) = before_even k m low' in
    elim (round k n h lt c) [
      | skipped zero_bit same fit rest ↦
          ap₂ (λ (a b : ℕ). peaks_loop (suc fuel) (2 ^ suc k - 1) a b found) same same_sum
          ∙ peaks_skipped fuel (2 ^ suc k - 1) (size_of k n + h) (before k (2 * m)) found fit
          ∙ ap (λ (t : ℕ). peaks_loop fuel t (size_of k n + h) (before k (2 * m)) found)
              (half_peak k)
          ∙ peaks_loop-size k fuel n h (2 * m) found (omega arith) zero_bit rest (omega arith)
              (omega (arith, same_sum, same))
          ∙ ap (λ (t : List ℕ). (found ++ t, h)) (sym (peak_nodes-skipped k m n zero_bit))
      | taken r e rlow size rest ↦
          let ps = 2 ^ suc k - 1 in
          let left : ps + (size_of k r + h) - ps ≡ size_of k r + h = omega arith in
          let peak : before (suc k) m + ps ≡ node_pos (2 * m) k = before_peak k m low' in
          let next : node_pos (2 * m) k ≡ before k (2 * m + 1) = before_odd k m low' in
          ap (λ (t : ℕ). peaks_loop (suc fuel) ps t (before (suc k) m) found) size
          ∙ peaks_taken fuel ps (ps + (size_of k r + h)) (before (suc k) m) found
              (omega (arith, pow_suc k, pow_pos k)) (omega arith) (omega (arith, size))
          ∙ (λ i.
              peaks_loop fuel (half_peak k i) (left i) ((peak ∙ next) i) (found ++ (peak i ∷ [])))
          ∙ peaks_loop-size k fuel r h (2 * m + 1) (found ++ (node_pos (2 * m) k ∷ []))
              (omega arith) rlow rest (omega arith) (omega (arith, size, peak, next))
          ∙ ap (λ (t : List ℕ). (t, h))
              (append_assoc found (node_pos (2 * m) k ∷ []) (peak_nodes k (2 * m + 1) r)
                ∙ ap (λ (t : List ℕ). found ++ t) (sym (peak_nodes-taken k m r n e)))
    ]

peak_nodes-more : (i k n : ℕ) → n < 2 ^ k → peak_nodes (i + k) 0 n ≡ peak_nodes k 0 n
peak_nodes-more zero k n h = let e : zero + k ≡ k = omega arith in rw e refl
peak_nodes-more (suc i) k n h =
    let e : suc i + k ≡ suc (i + k) = omega arith in
    rw e (
      peak_nodes-skipped (i + k) 0 n (omega (arith, pow_mono k (i + k) (omega arith)))
      ∙ peak_nodes-more i k n h)

peak_nodes-word : (k n : ℕ) → n < 2 ^ k → k ≤ 64 → peak_nodes 64 0 n ≡ peak_nodes k 0 n
peak_nodes-word k n h le =
    let e : 64 - k + k ≡ 64 = omega arith in rw e at (peak_nodes-more (64 - k) k n h)

peak_nodes-zero : (k m : ℕ) → peak_nodes k m 0 ≡ []
unfolding peak_nodes
peak_nodes-zero zero m = refl
peak_nodes-zero (suc k) m = rw (lt→ltb 0 (2 ^ k) (pow_pos k)) (peak_nodes-zero k (2 * m))

above_zero : (h : ℕ) (xs ys : List ℕ) → (if ltb 0 h then ys else xs) ≡ (if h == 0 then xs else ys)
above_zero h xs ys = ground arith

-- Below 2^64, the peaks of the size of a range of `n` leaves are the nodes that the binary digits
-- of `n` name, from the highest to the lowest; a size that ends within the nodes that the next
-- leaf completes, `h` positions on, is no range and has no peaks.
pub peaks-size :
    (n h q : ℕ)
    → n + 1 ≡ (q + 1) * 2 ^ h
    → size_of 64 n + h < u64_mod
    → n < u64_mod
    → peaks (size_of 64 n + h) ≡ (if h == 0 then peak_nodes 64 0 n else [])
unfolding peaks
peaks-size n h q e fits low = elim (Bool-cases (size_of 64 n + h == 0)) [
  | inl z ↦
      let (n0, h0) = start_zero n h (==→eq _ 0 z) in rw (z, h0, n0) (sym (peak_nodes-zero 64 0))
  | inr p ↦
      let (d, le, below, same, start) = start_size n h fits (not_==→ne _ 0 p) in
      let none : 0 ≡ before d 0 = unfold before in omega arith in
      let loop : peaks_loop 64 (shr64 all_ones (leading_zeros (size_of 64 n + h)))
            (size_of 64 n + h) 0 []
          ≡ (peak_nodes d 0 n, h) =
        (λ i. peaks_loop 64 (start i) (same i) (none i) [])
        ∙ peaks_loop-size d 64 n h 0 [] le below (inl (q, e)) (omega arith)
            (omega (arith, none, same)) in
      rw (p, loop)
        (ap (λ (t : List ℕ). if ltb 0 h then [] else t) (sym (peak_nodes-word d n below le))
          ∙ above_zero h (peak_nodes 64 0 n) [])
]
