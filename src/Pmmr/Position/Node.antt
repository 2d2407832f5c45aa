-- ===== src/Pmmr/Position/Node.antt =====
-- The nodes of the mountain range by height and place: the node of height `h` with `q` nodes of
-- that height to its left covers the leaves from `q * 2 ^ h` to `(q + 1) * 2 ^ h - 1`, counted
-- from 0, and comes right after the last of them and the smaller nodes over it.
use mathlib.Core.Path.{subst}
use native.Mathlib.Decide.{dec_lt}
use vcash.Prelude.{
  ℕ, zero, suc, ◌+◌, ◌-◌, ◌*◌, ◌/◌, ◌%◌, ◌^◌, ◌<◌, ◌≡◌, refl, sym, ap, ◌∙◌, arith, u64_mod, pow_suc,
  pow_pos, mul_le, divide_unique, ◌==◌, ne→not_==,
}
use vcash.Pmmr.Position.{ones, count_ones, peak_map_height}
use vcash.Pmmr.Position.{bintree_postorder_height, is_leaf}
use vcash.Pmmr.Position.Bits.{ones_le, ones_le_digits, ones_low, ones_shift, ones_even, ones_odd}
use vcash.Pmmr.Position.Descent.{size_of, peak_map_height-size}

-- The position, from 1, of the node of height `h` with `q` nodes of that height to its left.
abbrev pub node_pos : ℕ → ℕ → ℕ
node_pos q h = (q + 1) * 2 ^ suc h - 1 - count_ones q

-- The last leaf under a node, counted from 0.
abbrev pub last_leaf : ℕ → ℕ → ℕ
last_leaf q h = (q + 1) * 2 ^ h - 1

pub last_leaf_lem : (q h : ℕ) → last_leaf q h + 1 ≡ (q + 1) * 2 ^ h
last_leaf_lem q h = omega (arith, mul_le (q + 1) (pow_pos h))

pub double_leaves : (q h : ℕ) → (q + 1) * 2 ^ suc h ≡ 2 * ((q + 1) * 2 ^ h)
double_leaves q h = omega (arith, ap (λ (t : ℕ). (q + 1) * t) (pow_suc h))

pub last_leaf-lt : (q h : ℕ) → node_pos q h < u64_mod → (q + 1) * 2 ^ h < u64_mod
last_leaf-lt q h fits = omega (arith, double_leaves q h, ones_le_digits 64 q)

pub node_pos-size :
    (q h : ℕ) → node_pos q h < u64_mod → node_pos q h ≡ suc (size_of 64 (last_leaf q h) + h)
node_pos-size q h fits = omega (
  arith,
  double_leaves q h,
  last_leaf_lem q h,
  ones_le 64 (last_leaf q h),
  ones_low h 64 (last_leaf q h) q (last_leaf_lem q h) (omega (arith, last_leaf-lt q h fits)),
)

pub node_pos-pos : (q h : ℕ) → node_pos q h < u64_mod → 0 < node_pos q h
node_pos-pos q h fits = omega (arith, node_pos-size q h fits)

-- At the position of a node, below 2^64, `peak_map_height` gives the number of leaves to the left
-- of its last leaf, whose bits are the peaks of the range before that leaf, and the height of the
-- node.
pub peak_map_height-node_pos :
    (q h : ℕ) → node_pos q h < u64_mod → peak_map_height (node_pos q h - 1) ≡ (last_leaf q h, h)
peak_map_height-node_pos q h fits =
    let size = size_of 64 (last_leaf q h) + h in
    let e : node_pos q h - 1 ≡ size = omega (arith, node_pos-size q h fits) in
    rw e (
      peak_map_height-size (last_leaf q h) h q (last_leaf_lem q h)
        (omega (arith, node_pos-size q h fits)) (omega (arith, last_leaf-lt q h fits)))

pub bintree_postorder_height-node_pos :
    (q h : ℕ) → node_pos q h < u64_mod → bintree_postorder_height (node_pos q h) ≡ h
unfolding bintree_postorder_height
bintree_postorder_height-node_pos q h fits =
    rw
      (
        ne→not_== (node_pos q h) 0 (omega (arith, node_pos-size q h fits)),
        peak_map_height-node_pos q h fits,
      )
      refl

pub place-lt : (q h : ℕ) → node_pos q h < u64_mod → q < u64_mod
place-lt q h fits = omega (arith, last_leaf-lt q h fits, mul_le (q + 1) (pow_pos h))

-- The node of height `h` over the last leaf `n`.
pub leaf_quotient : (n q h : ℕ) → n + 1 ≡ (q + 1) * 2 ^ h → n / 2 ^ h ≡ q
leaf_quotient n q h e =
    (divide_unique (2 ^ h) q (2 ^ h - 1) n (omega (arith, pow_pos h)) (omega (arith, pow_pos h))).0

-- The parent comes right after its right child, and the left child `2 ^ (h + 1)` before it.
pub right_child : (p h : ℕ) → 2 * p < u64_mod → suc (node_pos (2 * p + 1) h) ≡ node_pos p (suc h)
right_child p h small = omega (
  arith,
  double_leaves p (suc h),
  ones_odd p small,
  ones_le 64 (2 * p + 1),
  mul_le (2 * p + 1 + 1) (pow_pos (suc h)),
)

pub left_child : (p h : ℕ) → 2 * p < u64_mod → node_pos (2 * p) h + 2 * 2 ^ h ≡ node_pos p (suc h)
left_child p h small = omega (
  arith,
  double_leaves p (suc h),
  ones_even p small,
  ones_le 64 (2 * p),
  pow_suc h,
  mul_le (2 * p + 1) (pow_pos (suc h)),
)

next_even :
    (p h : ℕ)
    → node_pos (2 * p) h < u64_mod
    → suc (node_pos (2 * p) h) ≡ node_pos ((2 * p + 1) * 2 ^ h) 0
next_even p h fits =
    let small : 2 * p < u64_mod = place-lt (2 * p) h fits in
    omega (
      arith,
      double_leaves (2 * p) h,
      ones_odd p small,
      ones_even p small,
      ones_le 64 (2 * p),
      ones_shift h 64 (2 * p + 1) (last_leaf-lt (2 * p) h fits),
      ones_le 64 ((2 * p + 1) * 2 ^ h),
      ones_le 64 p,
      mul_le (2 * p + 1) (pow_pos h),
    )

-- Every position of a 64-bit mountain range is the position of a node.
pub node_at : (n : ℕ) → suc n < u64_mod → (q : ℕ) × (h : ℕ) × (suc n ≡ node_pos q h)
node_at zero fits = (0, 0, unfold ones in refl)
node_at (suc n) fits =
    let (q, h, e) = node_at n (omega arith) in
    let here : (b : ℕ) → b ≡ q → node_pos b h < u64_mod =
      λ b same. subst (λ (t : ℕ). node_pos t h < u64_mod) (sym same) (omega (arith, e)) in
    elim (dec_lt 0 (q % 2)) [
      | yes odd ↦
          let same : 2 * (q / 2) + 1 ≡ q = omega arith in
          (
            q / 2,
            suc h,
            ap suc e
                ∙ ap (λ (t : ℕ). suc (node_pos t h)) (sym same)
                ∙ right_child (q / 2) h (omega (arith, place-lt q h (omega (arith, e)))),
          )
      | no even ↦
          let same : 2 * (q / 2) ≡ q = omega arith in
          (
            (2 * (q / 2) + 1) * 2 ^ h,
            0,
            ap suc e
                ∙ ap (λ (t : ℕ). suc (node_pos t h)) (sym same)
                ∙ next_even (q / 2) h (here (2 * (q / 2)) same),
          )
    ]

-- Every position from 1 on, below 2^64, is that of a node of the mountain range, and the height
-- that the code computes there is the height of that node; so a position is a leaf exactly where
-- the node has height 0.
pub bintree_postorder_height-total :
    (pos : ℕ)
    → 0 < pos
    → pos < u64_mod
    → (q : ℕ) × (h : ℕ) × (pos ≡ node_pos q h)
      × (bintree_postorder_height pos ≡ h)
      × (is_leaf pos ≡ (h == 0))
bintree_postorder_height-total zero p fits = absurd (omega arith)
bintree_postorder_height-total (suc n) p fits =
    let (q, h, e) = node_at n fits in
    let height : bintree_postorder_height (suc n) ≡ h =
      rw e (bintree_postorder_height-node_pos q h (omega (arith, e))) in
    (q, h, e, height, unfold is_leaf in ap (λ (t : ℕ). t == 0) height)
