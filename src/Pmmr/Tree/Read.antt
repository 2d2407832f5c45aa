-- ===== src/Pmmr/Tree/Read.antt =====
-- Which element a position of a range holds.
use native.Mathlib.Decide.{dec_lt}
use vcash.Prelude.{
  ℕ, zero, suc, ◌+◌, ◌-◌, ◌*◌, ◌/◌, ◌%◌, ◌≤◌, ◌<◌, ◌≡◌, ◌≢◌, refl, sym, ap, ◌∙◌, arith, u64_mod,
  true, false, ltb, lt→ltb, le→not_ltb, ◌==◌, ne→not_==, if◌then◌else◌, none, some, [], ◌∷◌, length,
  get_elem?, length-append, get_elem?-append_left, get_elem?-append_right,
}
use vcash.Pmmr.Position.{is_leaf, n_leaves}
use vcash.Pmmr.Position.Descent.{size_of}
use vcash.Pmmr.Position.Node.{node_pos, place-lt, bintree_postorder_height-total}
use vcash.Pmmr.Position.Leaves.{n_leaves-size}
use vcash.Pmmr.Position.Bits.{ones_le}
use vcash.Pmmr.Position.Family.{insertion_to_pmmr_index-node_pos}
use vcash.Pmmr.Backend
use vcash.Pmmr.Backend.{Hashing}
use vcash.Pmmr.Tree.{Pmmr, get_data}
use vcash.Pmmr.Tree.Spec.{first, IsRange}
use vcash.Pmmr.Tree.Push.{climbed}
use vcash.Pmmr.Tree.Grow.{size_of_mono, first_leaf, node_inside}

-- The leaves up to and with a leaf are counted at its position.
n_leaves-leaf : (q : ℕ) → 2 * (q + 2) < u64_mod → n_leaves (node_pos q 0) ≡ q + 1
n_leaves-leaf q low = elim (dec_lt 0 (q % 2)) [
  | yes odd ↦
      let here : node_pos q 0 ≡ size_of 64 q + 1 = first_leaf q in
      rw here (n_leaves-size q 1 (q / 2) (omega arith) (omega arith) (omega arith))
  | no even ↦
      let p = q / 2 in
      let same : 2 * p ≡ q = omega arith in
      let here : node_pos q 0 ≡ size_of 64 (q + 1) =
        rw same at (climbed q p 0 (omega arith) (omega arith)) in
      let plain : size_of 64 (q + 1) ≡ size_of 64 (q + 1) + 0 = omega arith in
      rw (here, plain) (n_leaves-size (q + 1) 0 (q + 1) (omega arith) (omega arith) (omega arith))
]

-- Positions of leaves are in the order of the leaves.
leaf_beyond : (n q : ℕ) → q < u64_mod → n ≤ q → size_of 64 n < node_pos q 0
leaf_beyond n q low le =
    let d = q - n in
    let e : d + n ≡ q = omega arith in
    let grown : size_of 64 n ≤ size_of 64 q = rw e at (size_of_mono d n (omega arith)) in
    omega (arith, first_leaf q, grown)

module _ {ℓ κ} {T : Type ℓ} {H : Type κ} (hs : Hashing T H) (leaf : ℕ → T) where
  length-first : (n : ℕ) → length (first leaf n) ≡ n
  length-first zero = refl
  length-first (suc n) = length-append (first leaf n) _ ∙ omega (arith, length-first n)

  get_elem?-first : (n q : ℕ) → q < n → get_elem? (first leaf n) q ≡ some (leaf q)
  get_elem?-first zero q lt = absurd (omega arith)
  get_elem?-first (suc n) q lt = elim (dec_lt q n) [
    | yes before ↦
        get_elem?-append_left (first leaf n) _ q (omega (arith, length-first n))
        ∙ get_elem?-first n q before
    | no at ↦
        let e : q ≡ length (first leaf n) + 0 = omega (arith, length-first n) in
        let l : q ≡ n = omega arith in
        ap (get_elem? (first leaf (suc n))) e
        ∙ (get_elem?-append_right (first leaf n) (leaf n ∷ []) 0
            ∙ ap (λ (t : ℕ). some (leaf t)) (sym l))
  ]

  get_data-leaf :
      (m : Pmmr T H) (n q : ℕ)
      → 2 * (n + 1) < u64_mod
      → IsRange hs leaf m n
      → q < n
      → get_data m (node_pos q 0)
        ≡ (if Backend.contains (node_pos q 0) m.backend.removed then none else some (leaf q))
  unfolding get_data
  get_data-leaf m n q low range lt =
      let inside : node_pos q 0 ≤ size_of 64 n = node_inside n q 0 (omega arith) (omega arith) in
      let within : node_pos q 0 ≤ m.last_pos = omega (arith, inside, range.size) in
      let leafy : is_leaf (node_pos q 0) ≡ true =
        (insertion_to_pmmr_index-node_pos q (omega (arith, ones_le 64 q))).1 in
      let index : n_leaves (node_pos q 0) - 1 ≡ q = omega (arith, n_leaves-leaf q (omega arith)) in
      rw (le→not_ltb m.last_pos (node_pos q 0) within, leafy, range.leaves, index)
        (rw (get_elem?-first n q lt) refl)

  get_data-other :
      (m : Pmmr T H) (n p : ℕ)
      → 2 * (n + 1) < u64_mod
      → IsRange hs leaf m n
      → 0 < p
      → ((q : ℕ) → q < n → p ≢ node_pos q 0)
      → get_data m p ≡ none
  unfolding get_data
  get_data-other m n p low range pos apart = elim (dec_lt m.last_pos p) [
    | yes past ↦ rw (lt→ltb m.last_pos p past) refl
    | no within ↦
        let (q, h, e, height, is) =
          bintree_postorder_height-total p pos (omega (arith, range.size, ones_le 64 n)) in
        at_height q h e is (omega arith)
  ]
    where
      below : (q : ℕ) → p ≡ node_pos q 0 → p ≤ m.last_pos → q < n
      below q e le = elim (dec_lt q n) [
        | yes lt ↦ lt
        | no past ↦ absurd (
            omega (
              arith,
              leaf_beyond n q (place-lt q 0 (omega (arith, le, range.size, ones_le 64 n)))
                  (omega arith),
              e,
              le,
              range.size,
            ))
      ]

      at_height :
          (q h : ℕ)
          → p ≡ node_pos q h
          → is_leaf p ≡ (h == 0)
          → p ≤ m.last_pos
          → (if ltb m.last_pos p
              then none
              else (if is_leaf p then Backend.get_data m.backend p else none))
            ≡ none
      at_height q zero e is le = absurd (apart q (below q e le) e)
      at_height q (suc h) e is le =
          let inner : is_leaf p ≡ false = is ∙ ne→not_== (suc h) 0 (omega arith) in
          rw (le→not_ltb m.last_pos p le, inner) refl

  -- In a range with the first `n` leaves, `2 * (n + 1) < 2^64`, `get_data` gives leaf `q`, counted
  -- from 0, at its position unless that position was removed, and it gives nothing at any other
  -- position from 1 on.
  pub get_data-IsRange :
      (m : Pmmr T H) (n : ℕ)
      → 2 * (n + 1) < u64_mod
      → IsRange hs leaf m n
      → ((q : ℕ)
          → q < n
          → get_data m (node_pos q 0)
            ≡ (if Backend.contains (node_pos q 0) m.backend.removed then none else some (leaf q)))
        × ((p : ℕ) → 0 < p → ((q : ℕ) → q < n → p ≢ node_pos q 0) → get_data m p ≡ none)
  get_data-IsRange m n low range = (
    λ q lt. get_data-leaf m n q low range lt,
    λ p pos apart. get_data-other m n p low range pos apart,
  )
