-- ===== src/Pmmr/Position/Runs.antt =====
-- Positions on small ranges, as in the comments of the code, and the theorems at concrete inputs.
use vcash.Prelude.{ℕ, ◌+◌, ◌/◌, ◌^◌, ◌<◌, ◌≡◌, refl, ◌==◌, [], ◌∷◌, arith, if◌then◌else◌}
use vcash.Pmmr.Position.{
  digits, map_loop, peak_map_height, sizes_loop, peak_sizes_height, peaks_loop, peaks, n_leaves,
  path, path_loop, bintree_postorder_height, is_leaf, family, family_branch, branch_loop,
}
use vcash.Pmmr.Position.Node.{node_pos, bintree_postorder_height-total}
use vcash.Pmmr.Position.Family.{sibling, family-node_pos}
use vcash.Pmmr.Position.Descent.{size_of}
use vcash.Pmmr.Position.Leaves.{n_leaves-size}
use vcash.Pmmr.Position.Peaks.{peak_nodes, peaks-size}

peaks_eleven : peaks 11 ≡ 7 ∷ 10 ∷ 11 ∷ []
unfolding digits peaks_loop peaks
peaks_eleven = refl

peaks_six : peaks 6 ≡ []
unfolding digits peaks_loop peaks
peaks_six = refl

peak_sizes_five : peak_sizes_height 5 ≡ (3 ∷ 1 ∷ [], 1)
unfolding digits sizes_loop peak_sizes_height
peak_sizes_five = refl

peak_map_four : peak_map_height 4 ≡ (3, 0)
unfolding digits map_loop peak_map_height
peak_map_four = refl

path_two : path 2 7 ≡ 2 ∷ 3 ∷ 7 ∷ []
unfolding digits map_loop peak_map_height path_loop path
path_two = refl

family_branch_four : family_branch 4 7 ≡ (6, 5) ∷ (7, 3) ∷ []
unfolding digits map_loop peak_map_height branch_loop family_branch
family_branch_four = refl

bintree_postorder_height-total_example :
    (q : ℕ) × (h : ℕ) × (6 ≡ node_pos q h)
    × (bintree_postorder_height 6 ≡ h)
    × (is_leaf 6 ≡ (h == 0))
bintree_postorder_height-total_example =
    bintree_postorder_height-total 6 (omega arith) (omega arith)

small_node : node_pos 1 1 < 2 ^ 64
small_node = omega arith

family-node_pos_example : family (node_pos 3 0) ≡ (node_pos (3 / 2) 1, node_pos (sibling 3) 0)
family-node_pos_example = family-node_pos 3 0 small_node

n_leaves-size_example : n_leaves (size_of 64 5 + 1) ≡ (if 1 == 0 then 5 else 5 + 1)
n_leaves-size_example = n_leaves-size 5 1 2 (omega arith) (omega arith) (omega arith)

peaks-size_example : peaks (size_of 64 5 + 1) ≡ (if 1 == 0 then peak_nodes 64 0 5 else [])
peaks-size_example = peaks-size 5 1 2 (omega arith) (omega arith) (omega arith)
