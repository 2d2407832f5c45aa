-- ===== src/Pmmr/Position/Leaves.antt =====
-- The number of leaves of a mountain range from its size.
use mathlib.Core.Path.{ap₂}
use mathlib.Core.List.{append_assoc, append-nil}
use vcash.Prelude.{
  ℕ, zero, suc, ◌+◌, ◌-◌, ◌*◌, ◌/◌, ◌^◌, ◌≤◌, ◌<◌, ◌≡◌, refl, sym, ap, ◌∙◌, arith, u64_mod, wrap64,
  List, [], ◌∷◌, ◌++◌, ltb, ◌==◌, if◌then◌else◌, ne→not_==, le→leb, lt→not_leb, lt→ltb, le→not_ltb,
  Bool-cases, inl, inr, ==→eq, not_==→ne, pow_suc, pow_pos, tests, not_ltb→le,
}
use vcash.Pmmr.Position.{ones, sizes_loop, peak_sizes_height, sum_leaves}
use vcash.Pmmr.Position.{n_leaves}
use vcash.Pmmr.Position.Descent.{
  size_of, Complete, skipped, taken, round, half_peak, start_size, start_zero,
}

-- The sizes of the peaks over `n` leaves, for `n < 2 ^ k`.
abbrev peak_sizes : ℕ → ℕ → List ℕ
peak_sizes zero n = []
peak_sizes (suc k) n =
    if ltb n (2 ^ k) then peak_sizes k n else (2 ^ suc k - 1) ∷ peak_sizes k (n - 2 ^ k)

sizes_taken :
    (fuel ps left : ℕ) (sizes : List ℕ)
    → 0 < ps
    → ps ≤ left
    → sizes_loop (suc fuel) ps sizes left
      ≡ sizes_loop fuel (ps / 2) (sizes ++ (ps ∷ [])) (left - ps)
unfolding sizes_loop
sizes_taken fuel ps left sizes hp le = rw (ne→not_== ps 0 (omega arith), le→leb ps left le) refl

sizes_skipped :
    (fuel ps left : ℕ) (sizes : List ℕ)
    → left < ps
    → sizes_loop (suc fuel) ps sizes left ≡ sizes_loop fuel (ps / 2) sizes left
unfolding sizes_loop
sizes_skipped fuel ps left sizes lt = rw (ne→not_== ps 0 (omega arith), lt→not_leb ps left lt) refl

peak_sizes-skipped : (k n : ℕ) → n < 2 ^ k → peak_sizes (suc k) n ≡ peak_sizes k n
peak_sizes-skipped k n h = rw (lt→ltb n (2 ^ k) h) refl

peak_sizes-taken :
    (k r n : ℕ) → 2 ^ k + r ≡ n → peak_sizes (suc k) n ≡ (2 ^ suc k - 1) ∷ peak_sizes k r
peak_sizes-taken k r n e =
    rw (le→not_ltb n (2 ^ k) (omega arith))
      (ap (λ (t : ℕ). (2 ^ suc k - 1) ∷ peak_sizes k t) (omega arith))

sizes_loop-size :
    (k fuel n h : ℕ) (sizes : List ℕ)
    → k ≤ fuel
    → n < 2 ^ k
    → Complete k n h
    → sizes_loop fuel (2 ^ k - 1) sizes (size_of k n + h) ≡ (sizes ++ peak_sizes k n, h)
sizes_loop-size zero zero n h sizes f lt c =
    unfold sizes_loop ones in
    ap₂ (λ (a : List ℕ) (b : ℕ). (a, b)) (sym (append-nil sizes)) (omega arith)
sizes_loop-size zero (suc fuel) n h sizes f lt c =
    unfold sizes_loop ones in
    ap₂ (λ (a : List ℕ) (b : ℕ). (a, b)) (sym (append-nil sizes)) (omega arith)
sizes_loop-size (suc k) zero n h sizes f lt c = absurd (omega arith)
sizes_loop-size (suc k) (suc fuel) n h sizes f lt c = elim (round k n h lt c) [
  | skipped zero_bit same fit rest ↦
      ap (sizes_loop (suc fuel) (2 ^ suc k - 1) sizes) same
      ∙ sizes_skipped fuel (2 ^ suc k - 1) (size_of k n + h) sizes fit
      ∙ ap (λ (t : ℕ). sizes_loop fuel t sizes (size_of k n + h)) (half_peak k)
      ∙ sizes_loop-size k fuel n h sizes (omega arith) zero_bit rest
      ∙ ap (λ (t : List ℕ). (sizes ++ t, h)) (sym (peak_sizes-skipped k n zero_bit))
  | taken r e low size rest ↦
      let ps = 2 ^ suc k - 1 in
      let left : ps + (size_of k r + h) - ps ≡ size_of k r + h = omega arith in
      ap (sizes_loop (suc fuel) ps sizes) size
      ∙ sizes_taken fuel ps (ps + (size_of k r + h)) sizes (omega (arith, pow_suc k, pow_pos k))
          (omega arith)
      ∙ ap₂ (λ (t u : ℕ). sizes_loop fuel t (sizes ++ (ps ∷ [])) u) (half_peak k) left
      ∙ sizes_loop-size k fuel r h (sizes ++ (ps ∷ [])) (omega arith) low rest
      ∙ ap (λ (t : List ℕ). (t, h))
          (append_assoc sizes (ps ∷ []) (peak_sizes k r)
            ∙ ap (λ (t : List ℕ). sizes ++ t) (sym (peak_sizes-taken k r n e)))
]

sum_leaves-sizes : (k n : ℕ) → n < 2 ^ k → 2 * n < u64_mod → sum_leaves (peak_sizes k n) ≡ n
sum_leaves-sizes zero n lt le = omega arith
sum_leaves-sizes (suc k) n lt le = elim (Bool-cases (ltb n (2 ^ k))) [
  | inl small ↦ rw small (sum_leaves-sizes k n (omega tests) (omega arith))
  | inr large ↦
      let r = n - 2 ^ k in
      let half : wrap64 (2 ^ suc k - 1 + 1) / 2 ≡ 2 ^ k =
        omega (arith, pow_suc k, pow_pos k, not_ltb→le n (2 ^ k) large) in
      rw (large, half, sum_leaves-sizes k r (omega (arith, pow_suc k)) (omega arith))
        (omega (arith, not_ltb→le n (2 ^ k) large))
]

peak_sizes_height-size :
    (n h q : ℕ)
    → n + 1 ≡ (q + 1) * 2 ^ h
    → size_of 64 n + h < u64_mod
    → (k : ℕ) × (k ≤ 64)
      × (n < 2 ^ k)
      × (peak_sizes_height (size_of 64 n + h) ≡ (peak_sizes k n, h))
unfolding peak_sizes_height
peak_sizes_height-size n h q e fits = elim (Bool-cases (size_of 64 n + h == 0)) [
  | inl z ↦
      let (n0, h0) = start_zero n h (==→eq _ 0 z) in
      (0, omega arith, omega arith, rw z (ap (λ (b : ℕ). ([], b)) (sym h0)))
  | inr p ↦
      let (d, le, below, same, start) = start_size n h fits (not_==→ne _ 0 p) in
      (
        d,
        le,
        below,
        rw p (
            ap₂ (λ (a b : ℕ). sizes_loop 64 a [] b) start same
            ∙ sizes_loop-size d 64 n h [] le below (inl (q, e))),
      )
]

-- For `n + 1` below 2^63 and a size below 2^64, the size of a range of `n` leaves tells `n`; a
-- size that ends within the nodes that the next leaf completes, `h` positions on, counts that leaf
-- too.
pub n_leaves-size :
    (n h q : ℕ)
    → n + 1 ≡ (q + 1) * 2 ^ h
    → 2 * (n + 1) < u64_mod
    → size_of 64 n + h < u64_mod
    → n_leaves (size_of 64 n + h) ≡ (if h == 0 then n else n + 1)
unfolding n_leaves
n_leaves-size n h q e low fits =
    let (k, le, below, sizes) = peak_sizes_height-size n h q e fits in
    let wrapped : wrap64 (n + 1) ≡ n + 1 = omega arith in
    rw (sizes, sum_leaves-sizes k n below (omega arith), wrapped) refl
