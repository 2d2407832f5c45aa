-- ===== src/Pmmr/Backend.antt =====
-- core/src/core/pmmr/vec_backend.rs: the backend of a mountain range that keeps its elements and
-- hashes in vectors and the removed positions in a set. A hash function is a parameter (`Hashing`).
use vcash.Prelude.{
  ℕ, ◌+◌, ◌-◌, Bool, false, not, ◌&&◌, ◌||◌, Option, none, some, List, [], ◌∷◌, ◌++◌, length,
  get_elem?, take, ◌==◌, if◌then◌else◌, ltb, map,
}
use vcash.Pmmr.Position.{is_leaf, n_leaves, insertion_to_pmmr_index}

-- `elmt.hash_with_index(i)`, `(left, right).hash_with_index(i)` and `ZERO_HASH`.
pub record Hashing {ℓ κ} (T : Type ℓ) (H : Type κ) : Type (ℓ ⊔ κ) where
  pub leaf_hash : T → ℕ → H
  pub node_hash : H → H → ℕ → H
  pub zero_hash : H

pub record VecBackend {ℓ κ} (T : Type ℓ) (H : Type κ) : Type (ℓ ⊔ κ) where
  pub data_file : Option (List T)
  pub hashes : List H
  pub removed : List ℕ

abbrev pub contains : ℕ → List ℕ → Bool
contains x [] = false
contains x (y ∷ ys) = x == y || contains x ys

-- `HashSet::insert`.
abbrev pub insert : ℕ → List ℕ → List ℕ
insert x ys = if contains x ys then ys else x ∷ ys

-- The positions from `pos` on of a run of hashes that are leaves and not removed.
abbrev pub leaf_positions {κ} : {H : Type κ} → ℕ → List H → List ℕ → List ℕ
leaf_positions pos [] removed = []
leaf_positions pos (x ∷ xs) removed =
    let rest = leaf_positions (pos + 1) xs removed in
    if is_leaf pos && not (contains pos removed) then pos ∷ rest else rest

abbrev pub skip_below : ℕ → List ℕ → List ℕ
skip_below from [] = []
skip_below from (x ∷ xs) = if ltb x from then skip_below from xs else x ∷ xs

module _ {ℓ} {T : Type ℓ} where
  abbrev pub push_data : T → Option (List T) → Option (List T)
  push_data elmt none = none
  push_data elmt (some xs) = some (xs ++ (elmt ∷ []))

  abbrev pub read_data : Option (List T) → ℕ → Option T
  read_data none position = none
  read_data (some xs) position = get_elem? xs (n_leaves position - 1)

  abbrev pub truncate_data : ℕ → Option (List T) → Option (List T)
  truncate_data n none = none
  truncate_data n (some xs) = some (take n xs)

module _ {ℓ κ} {T : Type ℓ} {H : Type κ} where
  abbrev pub new_backend : VecBackend T H
  new_backend = record { data_file = some []; hashes = []; removed = [] }

  abbrev pub new_hash_only : VecBackend T H
  new_hash_only = record { data_file = none; hashes = []; removed = [] }

  abbrev pub backend_size : VecBackend T H → ℕ
  backend_size b = length b.hashes

  unfoldable pub append : T → List H → VecBackend T H → VecBackend T H
  append elmt hashes b = record b {
    data_file = push_data elmt b.data_file;
    hashes = b.hashes ++ hashes;
  }

  -- `position.saturating_sub(1)` is the truncated difference.
  abbrev pub get_from_file : VecBackend T H → ℕ → Option H
  get_from_file b position = get_elem? b.hashes (position - 1)

  abbrev pub get_hash : VecBackend T H → ℕ → Option H
  get_hash b position = if contains position b.removed then none else get_from_file b position

  abbrev pub get_data_from_file : VecBackend T H → ℕ → Option T
  get_data_from_file b position = read_data b.data_file position

  abbrev pub get_data : VecBackend T H → ℕ → Option T
  get_data b position = if contains position b.removed then none else get_data_from_file b position

  unfoldable pub leaf_pos_iter : VecBackend T H → List ℕ
  leaf_pos_iter b = leaf_positions 1 b.hashes b.removed

  unfoldable pub leaf_idx_iter : VecBackend T H → ℕ → List ℕ
  leaf_idx_iter b from_idx =
      map (λ x. n_leaves x - 1)
        (skip_below (insertion_to_pmmr_index (from_idx + 1)) (leaf_pos_iter b))

  unfoldable pub remove : ℕ → VecBackend T H → VecBackend T H
  remove position b = record b { removed = insert position b.removed }

  -- The bitmap of removed positions is not used by this backend.
  unfoldable pub rewind_backend : ℕ → VecBackend T H → VecBackend T H
  rewind_backend position b = record b {
    data_file = truncate_data (n_leaves position) b.data_file;
    hashes = take position b.hashes;
  }
