-- ===== src/Pmmr/Tree.antt =====
-- core/src/core/pmmr/pmmr.rs: the mountain range itself, over the vector backend. A method that
-- changes the range returns the new one; an error is a `Result` as in the code.
pub mod Spec
pub mod Push
pub mod Grow
pub mod Rewind
pub mod Validate
pub mod Checked
pub mod Read
pub mod Same
mod Runs
use vcash.Prelude.{
  ℕ, zero, suc, ◌+◌, ◌-◌, ◌*◌, ◌^◌, Bool, true, false, not, ◌&&◌, ◌||◌, Option, none, some, List,
  [], ◌∷◌, ◌++◌, length, get_elem?, take, ◌==◌, if◌then◌else◌, ltb, leb, map, wrap64, sub64, Result,
  ok, err, ◌>>=◌, ◌>>◌, fail_if,
}
use vcash.Pmmr.Position
use vcash.Pmmr.Position.{
  is_leaf, has_peak, peak_map_height, bintree_postorder_height, family_branch,
}
use vcash.Pmmr.Backend
use vcash.Pmmr.Backend.{VecBackend, Hashing}
use mathlib.Core.List.{reverse}

pub data PmmrError : Type 0 where
  not_a_leaf : ℕ → PmmrError
  no_element : ℕ → PmmrError
  bad_mmr_size : ℕ → PmmrError
  missing_left_sibling : PmmrError
  no_root : PmmrError
  invalid_parent : ℕ → PmmrError

pub record Pmmr {ℓ κ} (T : Type ℓ) (H : Type κ) : Type (ℓ ⊔ κ) where
  pub last_pos : ℕ
  pub backend : VecBackend T H

pub record MerkleProof {κ} (H : Type κ) : Type κ where
  pub mmr_size : ℕ
  pub path : List H

abbrev pub filter_map {ℓ κ} : {A : Type ℓ} {B : Type κ} → (A → Option B) → List A → List B
filter_map f [] = []
filter_map f (x ∷ xs) = elim (f x) [ none ↦ filter_map f xs | some y ↦ y ∷ filter_map f xs ]

abbrev pub filter {ℓ} : {A : Type ℓ} → (A → Bool) → List A → List A
filter p [] = []
filter p (x ∷ xs) = let rest = filter p xs in if p x then x ∷ rest else rest

abbrev pub get_or_else {κ} : {A : Type κ} {E : Type 0} → Option A → E → Result E A
get_or_else none e = err e
get_or_else (some a) e = ok a

-- `while bintree_postorder_height(pos + 1) > 0 { pos += 1 }`: at most as many rounds as the height
-- of a node in a 64-bit range.
pub rewind_loop : ℕ → ℕ → ℕ
rewind_loop zero pos = pos
rewind_loop (suc fuel) pos =
    let rest = rewind_loop fuel (wrap64 (pos + 1)) in
    if ltb 0 (bintree_postorder_height (wrap64 (pos + 1))) then rest else pos

module _ {ℓ κ} {T : Type ℓ} {H : Type κ} where
  abbrev pub new : VecBackend T H → Pmmr T H
  new backend = record { last_pos = 0; backend = backend }

  abbrev pub at : VecBackend T H → ℕ → Pmmr T H
  at backend last_pos = record { last_pos = last_pos; backend = backend }

  abbrev pub is_empty : Pmmr T H → Bool
  is_empty m = m.last_pos == 0

  abbrev pub unpruned_size : Pmmr T H → ℕ
  unpruned_size m = m.last_pos

  abbrev pub get_from_file : Pmmr T H → ℕ → Option H
  get_from_file m pos = if ltb m.last_pos pos then none else Backend.get_from_file m.backend pos

  unfoldable pub get_hash : Pmmr T H → ℕ → Option H
  get_hash m pos =
      if ltb m.last_pos pos
      then none
      else (if is_leaf pos
          then Backend.get_hash m.backend pos
          else Backend.get_from_file m.backend pos)

  unfoldable pub get_data : Pmmr T H → ℕ → Option T
  get_data m pos =
      if ltb m.last_pos pos
      then none
      else (if is_leaf pos then Backend.get_data m.backend pos else none)

  unfoldable pub peaks : Pmmr T H → List H
  peaks m = filter_map (Backend.get_from_file m.backend) (Position.peaks m.last_pos)

  unfoldable pub prune : Pmmr T H → ℕ → Result PmmrError (Pmmr T H × Bool)
  prune m position =
      if not (is_leaf position)
      then err (not_a_leaf position)
      else elim (Backend.get_hash m.backend position) [
        | none ↦ ok (m, false)
        | some _ ↦ ok (record m { backend = Backend.remove position m.backend }, true)
      ]

  pub rewind : Pmmr T H → ℕ → Pmmr T H
  unfolding rewind_loop
  rewind m position =
      let pos = rewind_loop 64 position in
      record { last_pos = pos; backend = Backend.rewind_backend pos m.backend }

module _ {ℓ κ} {T : Type ℓ} {H : Type κ} (hs : Hashing T H) where
  open hs use {leaf_hash, node_hash, zero_hash}

  -- The loop of `push`: the position, the hashes so far and the last of them.
  pub push_loop : ℕ → ℕ → VecBackend T H → ℕ → ℕ → H → List H → Result PmmrError (ℕ × List H)
  push_loop zero peak_map backend peak pos current hashes = ok (pos, hashes)
  push_loop (suc fuel) peak_map backend peak pos current hashes =
      if has_peak peak_map peak
      then (do
        left_hash ←
            get_or_else
              (Backend.get_from_file backend (sub64 (wrap64 (pos + 1)) (wrap64 (2 * peak))))
              missing_left_sibling
        let next = node_hash left_hash current pos
        push_loop fuel peak_map backend (wrap64 (peak * 2)) (wrap64 (pos + 1)) next
            (hashes ++ (next ∷ [])))
      else ok (pos, hashes)

  pub push : Pmmr T H → T → Result PmmrError (Pmmr T H × ℕ)
  push m elmt =
      let elmt_pos = wrap64 (m.last_pos + 1) in
      let current = leaf_hash elmt (elmt_pos - 1) in
      let (peak_map, height) = peak_map_height (elmt_pos - 1) in
      do
        fail_if (not (height == 0)) (bad_mmr_size (elmt_pos - 1))
        (pos, hashes) ← push_loop 64 peak_map m.backend 1 elmt_pos current (current ∷ [])
        ok (record { last_pos = pos; backend = Backend.append elmt hashes m.backend }, elmt_pos)

  -- `for peak in peaks.rev() { res = match res { None => peak, Some(r) => hash(peak, r) } }`.
  abbrev pub bag : ℕ → List H → Option H
  bag size [] = none
  bag size (peak ∷ rest) = elim (bag size rest) [
    | none ↦ some peak
    | some rhash ↦ some (node_hash peak rhash size)
  ]

  unfoldable pub bag_the_rhs : Pmmr T H → ℕ → Option H
  bag_the_rhs m peak_pos = bag (unpruned_size m) (
      filter_map (Backend.get_from_file m.backend)
        (filter (λ x. ltb peak_pos x) (Position.peaks m.last_pos)))

  unfoldable pub root : Pmmr T H → Result PmmrError H
  unfolding peaks
  root m =
      if is_empty m then ok zero_hash else get_or_else (bag (unpruned_size m) (peaks m)) no_root

  abbrev pub push_back : {A : Type κ} → List A → Option A → List A
  push_back xs none = xs
  push_back xs (some x) = xs ++ (x ∷ [])

  unfoldable pub peak_path : Pmmr T H → ℕ → List H
  unfolding bag_the_rhs
  peak_path m peak_pos = reverse (
      push_back
        (filter_map (Backend.get_from_file m.backend)
          (filter (λ x. ltb x peak_pos) (Position.peaks m.last_pos)))
        (bag_the_rhs m peak_pos))

  abbrev last_parent : List (ℕ × ℕ) → ℕ → ℕ
  last_parent [] pos = pos
  last_parent ((parent, sibling) ∷ rest) pos = last_parent rest parent

  pub merkle_proof : Pmmr T H → ℕ → Result PmmrError (MerkleProof H)
  unfolding peak_path
  merkle_proof m pos = do
    fail_if (not (is_leaf pos)) (not_a_leaf pos)
    _ ← get_or_else (get_hash m pos) (no_element pos)
    let branch = family_branch pos m.last_pos
    let path = filter_map (λ x. get_from_file m x.1) branch
    ok (record { mmr_size = unpruned_size m; path = path ++ peak_path m (last_parent branch pos) })

  module _ (hash_eq : H → H → Bool) where
    -- The three `if let Some(...)` of `validate` and the comparison in them.
    abbrev pub check_hashes : ℕ → Option H → Option H → Option H → Result PmmrError (Unit {0})
    check_hashes n (some hash) (some left) (some right) =
        fail_if (not (hash_eq (node_hash left right (n - 1)) hash)) (invalid_parent n)
    check_hashes n _ _ _ = ok tt

    -- The body of the loop of `validate`, for the node at position `n`.
    unfoldable pub check_parent : Pmmr T H → ℕ → Result PmmrError (Unit {0})
    check_parent m n =
        let height = bintree_postorder_height n in
        if ltb 0 height
        then check_hashes n (get_hash m n) (get_from_file m (sub64 n (2 ^ height)))
            (get_from_file m (n - 1))
        else ok tt

    -- `for n in 1..(last_pos + 1)`, on the rounds left.
    unfoldable pub validate_from : Pmmr T H → ℕ → ℕ → Result PmmrError (Unit {0})
    validate_from m zero n = ok tt
    validate_from m (suc rounds) n = do check_parent m n; validate_from m rounds (n + 1)

    unfoldable pub validate : Pmmr T H → Result PmmrError (Unit {0})
    validate m = validate_from m m.last_pos 1
