-- ===== src/Pmmr/Tree/Runs.antt =====
-- A range of three leaves over a toy hash, and the theorems at it.
use vcash.Prelude.{
  [], ◌∷◌, some, sub64, ◌^◌, ℕ, ◌+◌, ◌*◌, ◌<◌, ◌≡◌, Bool, true, ok, ◌==◌, arith, u64_mod, eq→==,
  refl,
}
use vcash.Pmmr.Position.Node.{node_pos}
use vcash.Pmmr.Backend.{Hashing, new_backend}
use vcash.Pmmr.Position.{digits, map_loop, peak_map_height, bintree_postorder_height, is_leaf}
use vcash.Pmmr.Tree.Checked.{validate-parents}
use vcash.Pmmr.Tree.{
  get_hash, get_from_file, check_parent, validate_from, Pmmr, new, push, rewind, validate,
}
use vcash.Pmmr.Tree.Spec.{IsRange}
use vcash.Pmmr.Tree.Grow.{push_all, push_all-IsRange, push-IsRange}
use vcash.Pmmr.Tree.Rewind.{rewind-IsRange}
use vcash.Pmmr.Tree.Validate.{validate-IsRange}

abbrev toy : Hashing ℕ ℕ
toy = record { leaf_hash = λ x i. x + i; node_hash = λ l r i. 3 * l + r + i; zero_hash = 0 }

abbrev leaves : ℕ → ℕ
leaves n = 10 + n

three_fit : 2 * 3 < u64_mod
three_fit = omega arith

three_more_fit : 2 * (3 + 1) < u64_mod
three_more_fit = omega arith

push_all-IsRange_example :
    (m : Pmmr ℕ ℕ) × (push_all toy leaves 3 (new new_backend) ≡ ok m) × IsRange toy leaves m 3
push_all-IsRange_example = push_all-IsRange toy leaves 3 three_fit

abbrev three : Pmmr ℕ ℕ
three = (push_all-IsRange toy leaves 3 three_fit).0

three-IsRange : IsRange toy leaves three 3
three-IsRange = (push_all-IsRange toy leaves 3 three_fit).2

push-IsRange_example :
    (m : Pmmr ℕ ℕ) × (push toy three (leaves 3) ≡ ok (m, node_pos 3 0))
    × IsRange toy leaves m (3 + 1)
push-IsRange_example = push-IsRange toy leaves three 3 three_more_fit three-IsRange

rewind-IsRange_example : IsRange toy leaves (rewind three (node_pos 1 0)) (1 + 1)
rewind-IsRange_example =
    rewind-IsRange toy leaves three 3 1 three_more_fit (omega arith) three-IsRange

nat_eq : ℕ → ℕ → Bool
nat_eq a b = a == b

nat_eq_refl : (x : ℕ) → nat_eq x x ≡ true
unfolding nat_eq
nat_eq_refl x = eq→== x x refl

validate-IsRange_example : validate toy nat_eq three ≡ ok tt
validate-IsRange_example =
    validate-IsRange toy nat_eq leaves nat_eq_refl three 3 three_more_fit three-IsRange

-- Two leaves and their parent, as stored.
abbrev pair : Pmmr ℕ ℕ
pair = record {
  last_pos = 3;
  backend = record { data_file = some (10 ∷ 11 ∷ []); hashes = 10 ∷ 12 ∷ 44 ∷ []; removed = [] };
}

pair_height : 0 < bintree_postorder_height 3
unfolding digits map_loop peak_map_height bintree_postorder_height
pair_height = omega arith

pair_valid : validate toy nat_eq pair ≡ ok tt
unfolding digits map_loop peak_map_height bintree_postorder_height is_leaf nat_eq get_hash
    check_parent validate_from validate
pair_valid = refl

pair_hash : get_hash pair 3 ≡ some 44
unfolding digits map_loop peak_map_height bintree_postorder_height is_leaf get_hash
pair_hash = refl

pair_left : get_from_file pair (sub64 3 (2 ^ bintree_postorder_height 3)) ≡ some 10
unfolding digits map_loop peak_map_height bintree_postorder_height
pair_left = refl

validate-parents_example : nat_eq (3 * 10 + 12 + 2) 44 ≡ true
validate-parents_example =
    validate-parents toy nat_eq pair 3 44 10 12 pair_valid (omega arith) (omega arith) pair_height
      pair_hash pair_left refl
