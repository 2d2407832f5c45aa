-- ===== src/Pmmr/Tree/Validate.antt =====
-- `validate` on a range, and what its answer says of any mountain range.
use native.Mathlib.Decide.{dec_lt}
use mathlib.Core.Path.{ap₂}
use vcash.Prelude.{
  ◌==◌, ℕ, zero, suc, ◌+◌, ◌-◌, ◌*◌, ◌^◌, ◌≤◌, ◌<◌, ◌≡◌, refl, sym, ap, ◌∙◌, arith, u64_mod, sub64,
  Bool, true, false, not, pow_suc, lt→ltb, le→not_ltb, some, Option, ok, fail_if, ne→not_==,
}
use vcash.Pmmr.Position.{bintree_postorder_height, is_leaf}
use vcash.Pmmr.Position.Descent.{size_of}
use vcash.Pmmr.Position.Node.{
  node_pos, node_pos-size, last_leaf, last_leaf_lem, last_leaf-lt, right_child, left_child,
  bintree_postorder_height-total,
}
use vcash.Pmmr.Position.Family.{children_fit}
use vcash.Pmmr.Backend.{Hashing}
use vcash.Pmmr.Tree.{
  Pmmr, get_hash, get_from_file, check_hashes, check_parent, validate_from, validate,
  invalid_parent,
}
use vcash.Pmmr.Tree.Spec.{node_value, IsRange}
use vcash.Pmmr.Tree.Grow.{size_of_mono}

-- A node inside a range is complete.
node_complete :
    (n q h : ℕ) → 2 * (n + 1) < u64_mod → node_pos q h ≤ size_of 64 n → (q + 1) * 2 ^ h ≤ n
node_complete n q h low inside = elim (dec_lt n ((q + 1) * 2 ^ h)) [
  | no le ↦ omega arith
  | yes outside ↦
      let l = last_leaf q h in
      let e : l + 1 ≡ (q + 1) * 2 ^ h = last_leaf_lem q h in
      let d = l - n in
      let back : d + n ≡ l = omega (arith, e) in
      let fits : node_pos q h < u64_mod = omega arith in
      let grown : size_of 64 n ≤ size_of 64 l =
        rw back at (size_of_mono d n (omega (arith, back, e, last_leaf-lt q h fits))) in
      absurd (omega (arith, node_pos-size q h fits, grown))
]

module _ {ℓ κ} {T : Type ℓ} {H : Type κ} (hs : Hashing T H) (hash_eq : H → H → Bool) where
  leaf_ok :
      (m : Pmmr T H) (n : ℕ) → bintree_postorder_height n ≡ 0 → check_parent hs hash_eq m n ≡ ok tt
  unfolding check_parent
  leaf_ok m n e = rw e refl

  parent_ok :
      (m : Pmmr T H) (n h left : ℕ) (x l r : H)
      → bintree_postorder_height n ≡ suc h
      → sub64 n (2 ^ suc h) ≡ left
      → get_hash m n ≡ some x
      → get_from_file m left ≡ some l
      → get_from_file m (n - 1) ≡ some r
      → check_parent hs hash_eq m n
        ≡ fail_if (not (hash_eq (hs.node_hash l r (n - 1)) x)) (invalid_parent n)
  unfolding check_parent
  parent_ok m n h left x l r e place ex el er =
      rw (e, lt→ltb 0 (suc h) (omega arith))
        (ap (check_hashes hs hash_eq n (get_hash m n) (get_from_file m (sub64 n (2 ^ suc h)))) er
          ∙ ap (λ (t : ℕ). check_hashes hs hash_eq n (get_hash m n) (get_from_file m t) (some r))
              place
          ∙ ap₂ (λ (a b : Option H). check_hashes hs hash_eq n a b (some r)) ex el)

  inner_hash : (m : Pmmr T H) (n : ℕ) → is_leaf n ≡ false → get_hash m n ≡ get_from_file m n
  unfolding get_hash
  inner_hash m n e = rw e refl

  validate_from-all :
      (m : Pmmr T H) (rounds n : ℕ)
      → ((k : ℕ) → n ≤ k → k < n + rounds → check_parent hs hash_eq m k ≡ ok tt)
      → validate_from hs hash_eq m rounds n ≡ ok tt
  unfolding validate_from
  validate_from-all m zero n all = refl
  validate_from-all m (suc rounds) n all =
      rw (all n (omega arith) (omega arith))
        (validate_from-all m rounds (n + 1) (λ k lo hi. all k (omega arith) (omega arith)))

  module _ (leaf : ℕ → T) (hash_refl : (x : H) → hash_eq x x ≡ true) where
    stored_node :
        (m : Pmmr T H) (n q h : ℕ)
        → 2 * (n + 1) < u64_mod
        → IsRange hs leaf m n
        → node_pos q h ≤ m.last_pos
        → get_from_file m (node_pos q h) ≡ some (node_value hs leaf q h)
    stored_node m n q h low range inside =
        rw (le→not_ltb m.last_pos (node_pos q h) inside)
          (range.nodes q h (node_complete n q h low (omega (arith, range.size))))

    -- Where the comparison of hashes is reflexive, a range of `n` leaves, with `n + 1` below 2^63,
    -- passes `validate`, also after leaves of it were removed: the check of a parent does not read
    -- the removed positions.
    pub validate-IsRange :
        (m : Pmmr T H) (n : ℕ)
        → 2 * (n + 1) < u64_mod
        → IsRange hs leaf m n
        → validate hs hash_eq m ≡ ok tt
    unfolding validate
    validate-IsRange m n low range = validate_from-all m m.last_pos 1 (λ k lo hi.
        let (q, h, e, height, leaf_test) =
          bintree_postorder_height-total k lo (omega (arith, range.size)) in
        checked k q h e height leaf_test (omega arith))
      where
        checked :
            (k q h : ℕ)
            → k ≡ node_pos q h
            → bintree_postorder_height k ≡ h
            → is_leaf k ≡ (h == 0)
            → k ≤ m.last_pos
            → check_parent hs hash_eq m k ≡ ok tt
        checked k q zero e height leaf_test inside = leaf_ok m k height
        checked k q (suc h) e height leaf_test inside =
            let stored = λ (p i : ℕ). stored_node m n p i low range in
            let fits : node_pos q (suc h) < u64_mod = omega (arith, range.size) in
            let small : 2 * q < u64_mod = children_fit q h fits in
            let left : sub64 k (2 ^ suc h) ≡ node_pos (2 * q) h =
              omega (arith, left_child q h small, pow_suc h) in
            let right : node_pos (2 * q + 1) h ≡ k - 1 = omega (arith, right_child q h small) in
            let index : k - 1 ≡ node_pos q (suc h) - 1 = omega arith in
            parent_ok m k h (node_pos (2 * q) h) (node_value hs leaf q (suc h))
              (node_value hs leaf (2 * q) h) (node_value hs leaf (2 * q + 1) h) height left
              (inner_hash m k (leaf_test ∙ ne→not_== (suc h) 0 (omega arith))
                ∙ ap (get_from_file m) e
                ∙ stored q (suc h) (omega arith))
              (stored (2 * q) h (omega (arith, left_child q h small)))
              (ap (get_from_file m) (sym right) ∙ stored (2 * q + 1) h (omega arith))
            ∙ ap
                (λ (t : ℕ).
                  fail_if
                    (not (
                      hash_eq
                        (hs.node_hash (node_value hs leaf (2 * q) h)
                          (node_value hs leaf (2 * q + 1) h) t)
                        (node_value hs leaf q (suc h))))
                    (invalid_parent k))
                index
            ∙ ap (λ (b : Bool). fail_if (not b) (invalid_parent k))
                (hash_refl (node_value hs leaf q (suc h)))
