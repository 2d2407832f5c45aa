-- ===== src/Store/Runs.antt =====
-- A prune list and a leaf set over bitmaps that are lists, and the theorems at them.
use vcash.Prelude.{
  ℕ, List, map, length, ◌≡◌, ◌≤◌, refl, true, false, not, ◌&&◌, ◌||◌, [], ◌∷◌, leb, wrap64, arith,
  ◌^◌,
}
use vcash.Pmmr.Position.{ones, digits, is_leaf}
use vcash.Store.Bitmap.Listed.{lists, lists-IsLawful}
use vcash.Store.PruneList.{
  PruneList, add, new_prune_list, init_caches, get_shift, get_leaf_shift, is_pruned,
}
use vcash.Store.PruneList.Sums.{IsRoots}
use vcash.Store.PruneList.Shift.{init_caches-shifts}
use vcash.Store.PruneList.Below.{Node, pos_of, nodes_below, leaves_below, all_below}
use vcash.Store.PruneList.Add.{IsWithin, IsAdded, add-IsAdded}
use vcash.Transaction.Features.{contains}
use vcash.Store.LeafSet.{LeafSet, includes, rewind, removed_pre_cutoff}
use vcash.Store.LeafSet.Rewind.{rewind-includes, removed_pre_cutoff-rewind}

-- The nodes 1 to 7 of a tree of four leaves: the subtree under 3 and the leaf 4 are pruned.
abbrev pruned : PruneList lists
pruned = new_prune_list lists (lists.from_iter (3 ∷ 4 ∷ []))

pruned-IsRoots : IsRoots (lists.iter pruned.bitmap)
unfolding lists new_prune_list
pruned-IsRoots = record {
  positive = (omega arith, (omega arith, tt));
  small = (omega arith, (omega arith, tt));
}

init_caches-shifts_example :
    (nodes : List Node) × ((lists.iter pruned.bitmap ≡ map pos_of nodes)
      × ((get_shift lists 6 (init_caches lists pruned)
            ≡ wrap64 (length (all_below nodes_below 6 nodes)))
          × (get_leaf_shift lists 6 (init_caches lists pruned)
              ≡ wrap64 (length (all_below leaves_below 6 nodes)))))
init_caches-shifts_example =
    init_caches-shifts lists lists-IsLawful pruned 6 pruned-IsRoots (omega arith)

-- Below 3, the first node of height 1, lie 1 and 2; below 7 lie six nodes.
below_three : all_below nodes_below 6 ((1, 0) ∷ (0, 2) ∷ []) ≡ 1 ∷ 2 ∷ []
unfolding ones digits
below_three = refl

below_seven : nodes_below 2 0 ≡ 1 ∷ 2 ∷ 3 ∷ 4 ∷ 5 ∷ 6 ∷ []
unfolding ones digits
below_seven = refl

abbrev leaves : LeafSet lists
leaves = record { bitmap = lists.from_iter (4 ∷ 5 ∷ []); bitmap_bak = lists.from_iter (4 ∷ []) }

rewind-includes_example :
    includes lists 1 (rewind lists 4 (lists.from_iter (1 ∷ [])) leaves)
    ≡ ((leb 1 4 && includes lists 1 leaves) || lists.has 1 (lists.from_iter (1 ∷ [])))
rewind-includes_example =
    rewind-includes lists lists-IsLawful 4 1 (lists.from_iter (1 ∷ [])) leaves (omega arith)
      (omega arith)

removed_pre_cutoff-rewind_example :
    lists.has 2 (removed_pre_cutoff lists 4 (lists.from_iter (1 ∷ [])) pruned leaves) ≡ (
      ((leb 1 2 && leb 2 4) && (is_leaf 2 && not (is_pruned lists 2 pruned)))
      && not (includes lists 2 (rewind lists 4 (lists.from_iter (1 ∷ [])) leaves)))
removed_pre_cutoff-rewind_example =
    removed_pre_cutoff-rewind lists lists-IsLawful 4 2 (lists.from_iter (1 ∷ [])) pruned leaves
      (omega arith) (omega arith)

pruned-IsWithin : IsWithin lists (2 ^ 30) pruned
unfolding IsWithin lists new_prune_list
pruned-IsWithin = λ x e. within_pruned x e
  where
    within_pruned : (x : ℕ) → (contains x (3 ∷ 4 ∷ []) || false) ≡ true → x ≤ 2 ^ 30
    within_pruned x e = ground arith

-- Its sibling 6 is not pruned, so 3 stays a root.
add-IsAdded_example : IsAdded lists 5 pruned (add lists 5 pruned)
add-IsAdded_example =
    add-IsAdded lists lists-IsLawful 5 pruned (omega arith) (omega arith) pruned-IsWithin
