-- ===== src/Pmmr/Tree/Rewind.antt =====
-- `rewind` to a leaf gives back the range that ended with that leaf.
use native.Mathlib.Decide.{dec_lt}
use mathlib.Core.Path.{ap₂}
use vcash.Prelude.{
  ℕ, zero, suc, ◌+◌, ◌-◌, ◌*◌, ◌/◌, ◌%◌, ◌^◌, ◌≤◌, ◌<◌, ◌≡◌, refl, sym, ap, ◌∙◌, arith, u64_mod,
  wrap64, length, length-append, get_elem?, take, length-take, get_elem?-take, take-append_left,
  take-all, pow_suc, pow_pos, pow_mono, mul_le, lt→ltb, some,
}
use vcash.Pmmr.Position.{bintree_postorder_height, n_leaves}
use vcash.Pmmr.Position.Descent.{size_of}
use vcash.Pmmr.Position.Leaves.{n_leaves-size}
use vcash.Pmmr.Position.Node.{
  node_pos, node_pos-pos, double_leaves, right_child, bintree_postorder_height-node_pos,
}
use vcash.Pmmr.Backend.{Hashing, rewind_backend, truncate_data}
use vcash.Pmmr.Tree.{Pmmr, rewind_loop, rewind}
use vcash.Pmmr.Tree.Spec.{first, IsRange}
use vcash.Pmmr.Tree.Push.{climbed}
use vcash.Pmmr.Tree.Grow.{size_of_mono, node_inside, first_leaf}

loop_up :
    (fuel pos next : ℕ)
    → wrap64 (pos + 1) ≡ next
    → 0 < bintree_postorder_height next
    → rewind_loop (suc fuel) pos ≡ rewind_loop fuel next
unfolding rewind_loop
loop_up fuel pos next e high = rw (e, lt→ltb 0 _ high) refl

loop_ends :
    (fuel pos next : ℕ)
    → wrap64 (pos + 1) ≡ next
    → bintree_postorder_height next ≡ 0
    → rewind_loop (suc fuel) pos ≡ pos
unfolding rewind_loop
loop_ends fuel pos next e low = rw (e, low) refl

-- From a node over leaf `n` the loop ends at the last node that this leaf completes.
rewind_loop-node :
    (fuel n q h : ℕ)
    → 2 * (n + 2) < u64_mod
    → n + 1 ≡ (q + 1) * 2 ^ h
    → 64 ≤ fuel + h
    → rewind_loop fuel (node_pos q h) ≡ size_of 64 (n + 1)
rewind_loop-node zero n q h low e enough =
    absurd
      (omega (arith, pow_mono 64 h (omega arith), mul_le (2 ^ h) {a = 1} {b = q + 1} (omega arith)))
rewind_loop-node (suc fuel) n q h low e enough =
    let p = q / 2 in
    elim (dec_lt 0 (q % 2)) [
      | yes odd ↦
          let same : 2 * p + 1 ≡ q = omega arith in
          let up : n + 1 ≡ (p + 1) * 2 ^ suc h = omega (
            arith,
            e ∙ ap (λ (t : ℕ). (t + 1) * 2 ^ h) (sym same),
            ap (λ (t : ℕ). (p + 1) * t) (pow_suc h),
          ) in
          let inside : node_pos p (suc h) < u64_mod =
            omega (arith, up, ap (λ (t : ℕ). (p + 1) * t) (pow_suc (suc h))) in
          let next : wrap64 (node_pos (2 * p + 1) h + 1) ≡ node_pos p (suc h) =
            omega (arith, right_child p h (omega (arith, up, mul_le (p + 1) (pow_pos (suc h))))) in
          ap (λ (t : ℕ). rewind_loop (suc fuel) (node_pos t h)) (sym same)
          ∙ loop_up fuel (node_pos (2 * p + 1) h) (node_pos p (suc h)) next
              (omega (arith, bintree_postorder_height-node_pos p (suc h) inside))
          ∙ rewind_loop-node fuel n p (suc h) low up (omega arith)
      | no even ↦
          let same : 2 * p ≡ q = omega arith in
          let e' : n + 1 ≡ (2 * p + 1) * 2 ^ h = e ∙ ap (λ (t : ℕ). (t + 1) * 2 ^ h) (sym same) in
          let last : node_pos (2 * p) h ≡ size_of 64 (n + 1) = climbed n p h e' (omega arith) in
          let next : wrap64 (node_pos (2 * p) h + 1) ≡ node_pos (n + 1) 0 =
            omega (arith, last, first_leaf (n + 1)) in
          ap (λ (t : ℕ). rewind_loop (suc fuel) (node_pos t h)) (sym same)
          ∙ loop_ends fuel (node_pos (2 * p) h) (node_pos (n + 1) 0) next
              (bintree_postorder_height-node_pos (n + 1) 0 (omega arith))
          ∙ last
    ]

module _ {ℓ} {T : Type ℓ} (leaf : ℕ → T) where
  length-first : (n : ℕ) → length (first leaf n) ≡ n
  length-first zero = refl
  length-first (suc n) = length-append (first leaf n) _ ∙ omega (arith, length-first n)

  take-first : (d l : ℕ) → take l (first leaf (d + l)) ≡ first leaf l
  take-first zero l =
      let e : zero + l ≡ l = omega arith in
      rw e (ap (λ (t : ℕ). take t (first leaf l)) (sym (length-first l)) ∙ take-all (first leaf l))
  take-first (suc d) l =
      let e : suc d + l ≡ suc (d + l) = omega arith in
      rw e (
        take-append_left l (first leaf (d + l)) _ (omega (arith, length-first (d + l)))
        ∙ take-first d l)

module _ {ℓ κ} {T : Type ℓ} {H : Type κ} (hs : Hashing T H) (leaf : ℕ → T) where
  -- Rewinding a range of `n` leaves, with `n + 1` below 2^63, to the position of its leaf number
  -- `l` gives a range of the leaves up to and with that one: the leaves after it and all that they
  -- completed are gone.
  pub rewind-IsRange :
      (m : Pmmr T H) (n l : ℕ)
      → 2 * (n + 1) < u64_mod
      → l < n
      → IsRange hs leaf m n
      → IsRange hs leaf (rewind m (node_pos l 0)) (l + 1)
  unfolding rewind rewind_backend
  rewind-IsRange m n l low lt range =
      let end : rewind_loop 64 (node_pos l 0) ≡ size_of 64 (l + 1) =
        rewind_loop-node 64 l l 0 (omega arith) (omega arith) (omega arith) in
      let d = n - (l + 1) in
      let back : d + (l + 1) ≡ n = omega arith in
      let within : size_of 64 (l + 1) ≤ size_of 64 n =
        rw back at (size_of_mono d (l + 1) (omega arith)) in
      let leaves : n_leaves (size_of 64 (l + 1) + 0) ≡ l + 1 =
        n_leaves-size (l + 1) 0 (l + 1) (omega arith) (omega arith) (omega arith) in
      let plain : size_of 64 (l + 1) + 0 ≡ size_of 64 (l + 1) = omega arith in
      record {
        size = end;
        stored = rw end (
            length-take (size_of 64 (l + 1)) m.backend.hashes
              (omega (arith, range.stored, range.size)));
        leaves =
            ap₂ truncate_data (ap n_leaves (end ∙ sym plain) ∙ leaves) range.leaves
            ∙ ap some (
                ap (λ (t : ℕ). take (l + 1) (first leaf t)) (sym back) ∙ take-first leaf d (l + 1));
        nodes = λ q h le.
            let inside = node_inside (l + 1) q h (omega arith) le in
            ap (λ (t : ℕ). get_elem? (take t m.backend.hashes) (node_pos q h - 1)) end
            ∙ get_elem?-take (size_of 64 (l + 1)) m.backend.hashes (node_pos q h - 1)
                (omega (arith, inside, node_pos-pos q h (omega (arith, double_leaves q h))))
            ∙ range.nodes q h (omega arith);
      }
