-- ===== src/Store/PruneList/Shift.antt =====
-- The caches of shifts count the nodes and the leaves below the pruned roots.
use mathlib.Core.Path.{subst}
use vcash.Prelude.{
  ℕ, suc, ◌+◌, ◌-◌, ◌<◌, ◌≡◌, refl, ap, ◌∙◌, inl, inr, true, false, List, [], ◌∷◌, length,
  length-append, All, filter, leb, wrap64, arith, map, u64_mod, All-weaken, Bool-cases, ◌^◌,
}
use vcash.Store.Bitmap.{Bitmaps, IsLawful, as_u32, unwrap_or, positions}
use vcash.Store.PruneList.{
  PruneList, is_empty, cached_shift, get_shift, get_leaf_shift, node_shift, leaf_shift, shifts,
  init_caches, pruned_loop, build_shift_cache, build_leaf_shift_cache, build_pruned_cache,
}
use vcash.Store.PruneList.Sums.{sum_shifts, IsRoots, empty-iter, cached_shift-eq-sum}
use vcash.Store.PruneList.Below.{
  Node, pos_of, nodes_below, leaves_below, all_below, nodes_at, node_shift-length,
  leaf_shift-length,
}
use vcash.Pmmr.Position.Node.{node_pos}

module _ (m : Bitmaps) where
  -- The three caches, when there are roots and when there are none.
  all_caches : PruneList m → PruneList m
  all_caches p = record p {
    shift_cache = shifts m (node_shift m) p.bitmap;
    leaf_shift_cache = shifts m (leaf_shift m) p.bitmap;
    pruned_cache =
        pruned_loop m p.bitmap (unwrap_or 0 (m.maximum p.bitmap))
          (positions 1 (as_u32 (unwrap_or 0 (m.maximum p.bitmap) + 1) - 1)) m.create;
  }

  built : (p : PruneList m) → is_empty m p.bitmap ≡ false → init_caches m p ≡ all_caches p
  unfolding init_caches all_caches
  built p f =
      let p1 : PruneList m = record p { shift_cache = shifts m (node_shift m) p.bitmap } in
      let p2 : PruneList m = record p1 { leaf_shift_cache = shifts m (leaf_shift m) p.bitmap } in
      let e1 : build_shift_cache m p ≡ p1 = rw f refl in
      let e2 : build_leaf_shift_cache m p1 ≡ p2 = rw f refl in
      let e3 : build_pruned_cache m p2 ≡ all_caches p = rw f refl in
      ap (λ q. build_pruned_cache m (build_leaf_shift_cache m q)) e1
      ∙ ap (build_pruned_cache m) e2
      ∙ e3

  unbuilt : (p : PruneList m) → is_empty m p.bitmap ≡ true → init_caches m p ≡ p
  unfolding init_caches
  unbuilt p t =
      let e1 : build_shift_cache m p ≡ p = rw t refl in
      let e2 : build_leaf_shift_cache m p ≡ p = rw t refl in
      let e3 : build_pruned_cache m p ≡ p = rw t refl in
      ap (λ q. build_pruned_cache m (build_leaf_shift_cache m q)) e1
      ∙ ap (build_pruned_cache m) e2
      ∙ e3

  no_shift :
      (laws : IsLawful m) (shift : ℕ → ℕ) (b : m.Bitmap) (cache : List ℕ) (pos : ℕ)
      → is_empty m b ≡ true
      → cached_shift m b cache pos ≡ wrap64 (sum_shifts shift (filter (λ y. leb y pos) (m.iter b)))
  unfolding cached_shift
  no_shift laws shift b cache pos t = rw (t, empty-iter m laws shift (m.iter b) t) refl

-- The sum of the shifts of the nodes up to a position is the number of positions below them.
sum_shifts-below :
    (shift : ℕ → ℕ) (below : ℕ → ℕ → List ℕ) (pos : ℕ) (nodes : List Node)
    → ((h q : ℕ) → node_pos q h < u64_mod → shift (node_pos q h) ≡ length (below h q))
    → All (λ x. suc x < 2 ^ 32) (map pos_of nodes)
    → sum_shifts shift (filter (λ y. leb y pos) (map pos_of nodes))
      ≡ length (all_below below pos nodes)
sum_shifts-below shift below pos [] same fits = refl
sum_shifts-below shift below pos ((h, q) ∷ nodes) same (f, fits) =
    let rest = sum_shifts-below shift below pos nodes same fits in
    elim (Bool-cases (leb (node_pos q h) pos)) [
      | inl t ↦ rw t (
          omega (
            arith,
            rest,
            same h q (omega arith),
            length-append (below h q) (all_below below pos nodes),
          ))
      | inr f ↦ rw f rest
    ]

init_caches-sums :
    (m : Bitmaps) (laws : IsLawful m) (p : PruneList m) (pos : ℕ)
    → IsRoots (m.iter p.bitmap)
    → pos < 2 ^ 32
    → (get_shift m pos (init_caches m p)
        ≡ wrap64 (sum_shifts (node_shift m) (filter (λ y. leb y pos) (m.iter p.bitmap))))
      × (get_leaf_shift m pos (init_caches m p)
          ≡ wrap64 (sum_shifts (leaf_shift m) (filter (λ y. leb y pos) (m.iter p.bitmap))))
unfolding all_caches
init_caches-sums m laws p pos roots fits = elim (Bool-cases (is_empty m p.bitmap)) [
  | inl t ↦
      let e = unbuilt m p t in
      (
        ap (get_shift m pos) e ∙ no_shift m laws (node_shift m) p.bitmap p.shift_cache pos t,
        ap (get_leaf_shift m pos) e
            ∙ no_shift m laws (leaf_shift m) p.bitmap p.leaf_shift_cache pos t,
      )
  | inr f ↦
      let e = built m p f in
      (
        ap (get_shift m pos) e ∙ cached_shift-eq-sum m laws (node_shift m) p.bitmap pos roots fits,
        ap (get_leaf_shift m pos) e
            ∙ cached_shift-eq-sum m laws (leaf_shift m) p.bitmap pos roots fits,
      )
]

-- If every pruned root is from 1 to 2^32 - 2, the roots are positions of nodes of the mountain range, and
-- after the caches are built the shift of a position below 2^32 is the number of nodes that lie below
-- the roots up to it, and its leaf shift the number of leaves that do, both as 64-bit sums. Below a root
-- that is a leaf lies nothing.
pub init_caches-shifts :
    (m : Bitmaps) (laws : IsLawful m) (p : PruneList m) (pos : ℕ)
    → IsRoots (m.iter p.bitmap)
    → pos < 2 ^ 32
    → (nodes : List Node) × ((m.iter p.bitmap ≡ map pos_of nodes)
        × ((get_shift m pos (init_caches m p) ≡ wrap64 (length (all_below nodes_below pos nodes)))
            × (get_leaf_shift m pos (init_caches m p)
                ≡ wrap64 (length (all_below leaves_below pos nodes)))))
init_caches-shifts m laws p pos roots fits =
    let (nodes, e) =
      nodes_at (m.iter p.bitmap) roots.positive
        (All-weaken _ _ (m.iter p.bitmap) (λ x lt. omega (arith, lt)) roots.small) in
    let small : All (λ x. suc x < 2 ^ 32) (map pos_of nodes) =
      subst (λ (xs : List ℕ). All (λ x. suc x < 2 ^ 32) xs) e roots.small in
    let (sum, leaf_sum) = init_caches-sums m laws p pos roots fits in
    (
      nodes,
      (
        e,
        (
          sum ∙ counted nodes e (node_shift m) nodes_below (node_shift-length m) small,
          leaf_sum ∙ counted nodes e (leaf_shift m) leaves_below (leaf_shift-length m) small,
        ),
      ),
    )
  where
    counted :
        (nodes : List Node)
        → m.iter p.bitmap ≡ map pos_of nodes
        → (shift : ℕ → ℕ) (below : ℕ → ℕ → List ℕ)
        → ((h q : ℕ) → node_pos q h < u64_mod → shift (node_pos q h) ≡ length (below h q))
        → All (λ x. suc x < 2 ^ 32) (map pos_of nodes)
        → wrap64 (sum_shifts shift (filter (λ y. leb y pos) (m.iter p.bitmap)))
          ≡ wrap64 (length (all_below below pos nodes))
    counted nodes e shift below same small =
        ap (λ (xs : List ℕ). wrap64 (sum_shifts shift (filter (λ y. leb y pos) xs))) e
        ∙ ap wrap64 (sum_shifts-below shift below pos nodes same small)
