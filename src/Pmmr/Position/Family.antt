-- ===== src/Pmmr/Position/Family.antt =====
-- Parents, siblings and subtrees: the position arithmetic against the tree of nodes.
use mathlib.Core.Path.{ap₂}
use vcash.Prelude.{
  ℕ, suc, ◌+◌, ◌-◌, ◌*◌, ◌/◌, ◌%◌, ◌^◌, ◌<◌, ◌≡◌, refl, sym, ap, ◌∙◌, arith, u64_mod, pow_suc,
  pow_pos, mul_le, ◌==◌, inl, inr, Bool-cases, true, false, eq→==, ne→not_==, sub64, not,
  if◌then◌else◌, ==→eq, not_==→ne,
}
use vcash.Pmmr.Position.{has_peak, peak_at, family, is_left_sibling}
use vcash.Pmmr.Position.{is_leaf, insertion_to_pmmr_index}
use vcash.Pmmr.Position.{bintree_rightmost, bintree_leftmost}
use vcash.Pmmr.Position.Bits.{ones_le, ones_low, ones_shift}
use vcash.Pmmr.Position.Node.{
  node_pos, last_leaf, last_leaf_lem, leaf_quotient, last_leaf-lt, node_pos-pos, right_child,
  left_child, peak_map_height-node_pos, bintree_postorder_height-node_pos,
}

-- The other child of a node's parent.
abbrev pub sibling : ℕ → ℕ
sibling q = if q % 2 == 1 then q - 1 else q + 1

sub64-one : (n : ℕ) → 0 < n → n < u64_mod → sub64 n 1 ≡ n - 1
sub64-one n p h = omega arith

-- The peak at a node's height is there exactly if the node is a right child.
has_peak-node : (q h : ℕ) → has_peak (last_leaf q h) (peak_at h) ≡ (q % 2 == 1)
has_peak-node q h = rw (leaf_quotient (last_leaf q h) q h (last_leaf_lem q h)) refl

is_left_sibling-node_pos :
    (q h : ℕ) → node_pos q h < u64_mod → is_left_sibling (node_pos q h) ≡ not (q % 2 == 1)
unfolding is_left_sibling
is_left_sibling-node_pos q h fits =
    rw
      (
        sub64-one (node_pos q h) (node_pos-pos q h fits) fits,
        peak_map_height-node_pos q h fits,
        has_peak-node q h,
      )
      refl

pub children_fit : (p h : ℕ) → node_pos p (suc h) < u64_mod → 2 * p < u64_mod
children_fit p h fits = omega (
  arith,
  last_leaf-lt p (suc h) fits,
  mul_le (p + 1) (pow_pos h),
  ap (λ (t : ℕ). (p + 1) * t) (pow_suc h),
)

pub two_peaks : (p h : ℕ) → node_pos p (suc h) < u64_mod → 2 * 2 ^ h < u64_mod
two_peaks p h fits =
    omega (arith, last_leaf-lt p (suc h) fits, ap (λ (t : ℕ). (p + 1) * t) (pow_suc h))

family_right :
    (p h : ℕ)
    → node_pos p (suc h) < u64_mod
    → family (node_pos (2 * p + 1) h) ≡ (node_pos p (suc h), node_pos (2 * p) h)
unfolding family
family_right p h fits =
    let small = children_fit p h fits in
    let up = right_child p h small in
    let here : node_pos (2 * p + 1) h < u64_mod = omega arith in
    let right : (2 * p + 1) % 2 == 1 ≡ true = eq→== _ 1 (omega arith) in
    rw
      (
        sub64-one (node_pos (2 * p + 1) h) (node_pos-pos (2 * p + 1) h here) here,
        peak_map_height-node_pos (2 * p + 1) h here,
        has_peak-node (2 * p + 1) h,
        right,
      )
      (ap₂ (λ (a b : ℕ). (a, b)) (omega arith)
        (omega (arith, left_child p h small, two_peaks p h fits)))

family_left :
    (p h : ℕ)
    → node_pos p (suc h) < u64_mod
    → family (node_pos (2 * p) h) ≡ (node_pos p (suc h), node_pos (2 * p + 1) h)
unfolding family
family_left p h fits =
    let small = children_fit p h fits in
    let up = left_child p h small in
    let here : node_pos (2 * p) h < u64_mod = omega arith in
    let left : 2 * p % 2 == 1 ≡ false = ne→not_== _ 1 (omega arith) in
    rw
      (
        sub64-one (node_pos (2 * p) h) (node_pos-pos (2 * p) h here) here,
        peak_map_height-node_pos (2 * p) h here,
        has_peak-node (2 * p) h,
        left,
      )
      (ap₂ (λ (a b : ℕ). (a, b)) (omega (arith, two_peaks p h fits))
        (omega (arith, right_child p h small, two_peaks p h fits)))

-- As long as the parent's position is below 2^64, `family` gives the positions of the parent and
-- of the parent's other child.
pub family-node_pos :
    (q h : ℕ)
    → node_pos (q / 2) (suc h) < u64_mod
    → family (node_pos q h) ≡ (node_pos (q / 2) (suc h), node_pos (sibling q) h)
family-node_pos q h fits = elim (Bool-cases (q % 2 == 1)) [
  | inl odd ↦
      let one : q % 2 ≡ 1 = ==→eq (q % 2) 1 odd in
      let same : 2 * (q / 2) + 1 ≡ q = omega arith in
      let before : 2 * (q / 2) ≡ q - 1 = omega arith in
      ap (λ (t : ℕ). family (node_pos t h)) (sym same)
      ∙ family_right (q / 2) h fits
      ∙ rw odd (ap (λ (t : ℕ). (node_pos (q / 2) (suc h), node_pos t h)) before)
  | inr even ↦
      let zero : q % 2 ≡ 0 = omega (arith, not_==→ne (q % 2) 1 even) in
      let same : 2 * (q / 2) ≡ q = omega arith in
      let after : 2 * (q / 2) + 1 ≡ q + 1 = omega arith in
      ap (λ (t : ℕ). family (node_pos t h)) (sym same)
      ∙ family_left (q / 2) h fits
      ∙ rw even (ap (λ (t : ℕ). (node_pos (q / 2) (suc h), node_pos t h)) after)
]

-- The leaf that is inserted as number `n + 1`, counted from 1, has the position of the leaf with
-- `n` leaves to its left, as long as that position is below 2^64, and the code takes that position
-- for a leaf.
pub insertion_to_pmmr_index-node_pos :
    (n : ℕ)
    → node_pos n 0 < u64_mod
    → (insertion_to_pmmr_index (suc n) ≡ node_pos n 0) × (is_leaf (node_pos n 0) ≡ true)
unfolding insertion_to_pmmr_index is_leaf
insertion_to_pmmr_index-node_pos n fits =
    let back : suc n - 1 ≡ n = omega arith in
    (
      rw (ne→not_== (suc n) 0 (omega arith), back) (omega (arith, ones_le 64 n)),
      rw (bintree_postorder_height-node_pos n 0 fits) refl,
    )

-- For a node at a position below 2^64, `bintree_leftmost` and `bintree_rightmost` give the
-- positions of the first and of the last leaf under it.
pub bintree_leaves-node_pos :
    (q h : ℕ)
    → node_pos q h < u64_mod
    → (bintree_leftmost (node_pos q h) ≡ node_pos (q * 2 ^ h) 0)
      × (bintree_rightmost (node_pos q h) ≡ node_pos (last_leaf q h) 0)
unfolding bintree_leftmost bintree_rightmost
bintree_leaves-node_pos q h fits =
    let height = bintree_postorder_height-node_pos q h fits in
    let inside = last_leaf-lt q h fits in
    let double : (q + 1) * 2 ^ suc h ≡ 2 * ((q + 1) * 2 ^ h) =
      omega (arith, ap (λ (t : ℕ). (q + 1) * t) (pow_suc h)) in
    (
      rw height (
          omega (
            arith,
            ones_shift h 64 q (omega arith),
            ones_le 64 q,
            mul_le q (pow_pos h),
            pow_pos h,
          )),
      rw height (
          omega (
            arith,
            last_leaf_lem q h,
            ones_le 64 (last_leaf q h),
            ones_low h 64 (last_leaf q h) q (last_leaf_lem q h) (omega arith),
          )),
    )
