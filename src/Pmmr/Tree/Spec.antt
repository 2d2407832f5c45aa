-- ===== src/Pmmr/Tree/Spec.antt =====
-- What a mountain range over given leaves holds: the hash of each node from those of its children.
use vcash.Prelude.{
  ℕ, zero, suc, ◌+◌, ◌-◌, ◌*◌, ◌^◌, ◌≤◌, ◌≡◌, some, List, [], ◌∷◌, ◌++◌, length, get_elem?,
}
use vcash.Pmmr.Position.Node.{node_pos}
use vcash.Pmmr.Position.Descent.{size_of}
use vcash.Pmmr.Backend.{Hashing}
use vcash.Pmmr.Tree.{Pmmr}

module _ {ℓ} {T : Type ℓ} where
  -- The first `n` leaves.
  abbrev pub first : (ℕ → T) → ℕ → List T
  first leaf zero = []
  first leaf (suc n) = first leaf n ++ (leaf n ∷ [])

module _ {ℓ κ} {T : Type ℓ} {H : Type κ} (hs : Hashing T H) (leaf : ℕ → T) where
  open hs use {leaf_hash, node_hash}

  -- The hash of the node of height `h` with `q` such nodes to its left.
  abbrev pub node_value : ℕ → ℕ → H
  node_value q zero = leaf_hash (leaf q) (node_pos q 0 - 1)
  node_value q (suc h) =
      node_hash (node_value (2 * q) h) (node_value (2 * q + 1) h) (node_pos q (suc h) - 1)

  -- The range holds the first `n` leaves and every node that they complete.
  pub record IsRange (m : Pmmr T H) (n : ℕ) : Type (ℓ ⊔ κ) where
    pub size : m.last_pos ≡ size_of 64 n
    pub stored : length m.backend.hashes ≡ m.last_pos
    pub leaves : m.backend.data_file ≡ some (first leaf n)
    pub nodes :
        (q h : ℕ)
        → (q + 1) * 2 ^ h ≤ n
        → get_elem? m.backend.hashes (node_pos q h - 1) ≡ some (node_value q h)
