-- ===== src/Store/PruneList/Below.antt =====
-- The nodes and the leaves below a node of the mountain range, as lists of their positions, and how
-- many they are.
use vcash.Prelude.{
  ℕ, zero, suc, ◌+◌, ◌-◌, ◌*◌, ◌^◌, ◌<◌, ◌≡◌, refl, sym, ap, ◌∙◌, List, [], ◌∷◌, ◌++◌, length,
  length-append, All, leb, ◌==◌, ne→not_==, if◌then◌else◌, arith, pow_suc, u64_mod, map,
}
use vcash.Pmmr.Position.Node.{
  node_pos, bintree_postorder_height-node_pos, bintree_postorder_height-total,
}
use vcash.Store.Bitmap.{Bitmaps}
use vcash.Store.PruneList.{node_shift, leaf_shift}

-- The node of height `h` with `q` such nodes to its left, after all the nodes below it: those of its
-- left child, then those of its right child.
abbrev pub subtree : ℕ → ℕ → List ℕ
subtree zero q = node_pos q 0 ∷ []
subtree (suc h) q = subtree h (2 * q) ++ (subtree h (2 * q + 1) ++ (node_pos q (suc h) ∷ []))

abbrev pub leaves_of : ℕ → ℕ → List ℕ
leaves_of zero q = node_pos q 0 ∷ []
leaves_of (suc h) q = leaves_of h (2 * q) ++ leaves_of h (2 * q + 1)

-- What lies below a node: nothing below a leaf.
abbrev pub nodes_below : ℕ → ℕ → List ℕ
nodes_below zero q = []
nodes_below (suc h) q = subtree h (2 * q) ++ subtree h (2 * q + 1)

abbrev pub leaves_below : ℕ → ℕ → List ℕ
leaves_below zero q = []
leaves_below (suc h) q = leaves_of h (2 * q) ++ leaves_of h (2 * q + 1)

-- A node by its height and place.
abbrev pub Node : Type 0
Node = ℕ × ℕ

abbrev pub pos_of : Node → ℕ
pos_of (h, q) = node_pos q h

-- What lies below the nodes up to a position.
abbrev pub all_below : (ℕ → ℕ → List ℕ) → ℕ → List Node → List ℕ
all_below below pos [] = []
all_below below pos ((h, q) ∷ nodes) =
    let rest = all_below below pos nodes in
    if leb (node_pos q h) pos then below h q ++ rest else rest

length-subtree : (h q : ℕ) → suc (length (subtree h q)) ≡ 2 * 2 ^ h
length-subtree zero q = refl
length-subtree (suc h) q = omega (
  arith,
  length-subtree h (2 * q),
  length-subtree h (2 * q + 1),
  length-append (subtree h (2 * q)) (subtree h (2 * q + 1) ++ (node_pos q (suc h) ∷ [])),
  length-append (subtree h (2 * q + 1)) (node_pos q (suc h) ∷ []),
  pow_suc h,
)

length-leaves_of : (h q : ℕ) → length (leaves_of h q) ≡ 2 ^ h
length-leaves_of zero q = refl
length-leaves_of (suc h) q = omega (
  arith,
  length-leaves_of h (2 * q),
  length-leaves_of h (2 * q + 1),
  length-append (leaves_of h (2 * q)) (leaves_of h (2 * q + 1)),
  pow_suc h,
)

length-nodes_below : (h q : ℕ) → length (nodes_below h q) ≡ 2 * (2 ^ h - 1)
length-nodes_below zero q = refl
length-nodes_below (suc h) q = omega (
  arith,
  length-subtree h (2 * q),
  length-subtree h (2 * q + 1),
  length-append (subtree h (2 * q)) (subtree h (2 * q + 1)),
  pow_suc h,
)

length-leaves_below : (h q : ℕ) → length (leaves_below h q) ≡ (if h == 0 then 0 else 2 ^ h)
length-leaves_below zero q = refl
length-leaves_below (suc h) q = rw (ne→not_== (suc h) 0 (omega arith)) (
    omega (
      arith,
      length-leaves_of h (2 * q),
      length-leaves_of h (2 * q + 1),
      length-append (leaves_of h (2 * q)) (leaves_of h (2 * q + 1)),
      pow_suc h,
    ))

-- Every position from 1 on is that of a node.
pub nodes_at :
    (xs : List ℕ)
    → All (λ x. 0 < x) xs
    → All (λ x. x < u64_mod) xs
    → (nodes : List Node) × (xs ≡ map pos_of nodes)
nodes_at [] ps fits = ([], refl)
nodes_at (x ∷ xs) (p, ps) (f, fits) =
    let (q, h, e, height, is) = bintree_postorder_height-total x p f in
    let (nodes, same) = nodes_at xs ps fits in
    ((h, q) ∷ nodes, ap (λ (t : ℕ). t ∷ xs) e ∙ ap (◌∷◌ (node_pos q h)) same)

module _ (m : Bitmaps) where
  pub node_shift-length :
      (h q : ℕ) → node_pos q h < u64_mod → node_shift m (node_pos q h) ≡ length (nodes_below h q)
  node_shift-length h q fits =
      rw (bintree_postorder_height-node_pos q h fits) (sym (length-nodes_below h q))

  pub leaf_shift-length :
      (h q : ℕ) → node_pos q h < u64_mod → leaf_shift m (node_pos q h) ≡ length (leaves_below h q)
  leaf_shift-length h q fits =
      rw (bintree_postorder_height-node_pos q h fits) (sym (length-leaves_below h q))
