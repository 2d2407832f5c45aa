-- ===== src/Pmmr/Position.antt =====
-- The functions of core/src/core/pmmr/pmmr.rs on positions: peaks, heights, families and paths
-- in the postorder numbering of the nodes, which starts at 1.
pub mod Bits
pub mod Descent
pub mod Node
pub mod Family
pub mod Leaves
pub mod Peaks
mod Runs
use vcash.Prelude.{
  ℕ, zero, suc, ◌+◌, ◌-◌, ◌*◌, ◌/◌, ◌%◌, ◌^◌, Bool, true, false, not, List, [], ◌∷◌, ◌++◌, ltb, leb,
  ◌==◌, if◌then◌else◌, u64_mod, wrap64, sub64, shr64,
}

-- The number of binary digits of a word, and `leading_zeros`.
unfoldable pub digits : ℕ → ℕ → ℕ
digits zero n = 0
digits (suc fuel) n = let rest = digits fuel (n / 2) in if n == 0 then 0 else suc rest

abbrev pub leading_zeros : ℕ → ℕ
leading_zeros n = 64 - digits 64 n

-- `count_ones`.
unfoldable pub ones : ℕ → ℕ → ℕ
ones zero n = 0
ones (suc k) n = n % 2 + ones k (n / 2)

abbrev pub count_ones : ℕ → ℕ
count_ones n = ones 64 n

abbrev pub all_ones : ℕ
all_ones = u64_mod - 1

-- `bitmap <<= 1`, and `bitmap |= 1` after it.
abbrev pub shl1 : ℕ → ℕ
shl1 m = wrap64 (m * 2)

abbrev pub or1 : ℕ → ℕ
or1 m = m + (1 - m % 2)

-- `(map & peak) != 0` for `peak` a power of two.
abbrev pub has_peak : ℕ → ℕ → Bool
has_peak map peak = map / peak % 2 == 1

-- Each loop `while peak_size != 0 { ...; peak_size >>= 1 }` has one round for each binary digit of
-- `peak_size`, so 64 rounds of fuel are enough.
unfoldable pub map_loop : ℕ → ℕ → ℕ → ℕ → ℕ × ℕ
map_loop zero peak_size bitmap pos = (bitmap, pos)
map_loop (suc fuel) peak_size bitmap pos =
    let rest =
      map_loop fuel (peak_size / 2) (if leb peak_size pos then or1 (shl1 bitmap) else shl1 bitmap)
        (if leb peak_size pos then pos - peak_size else pos) in
    if peak_size == 0 then (bitmap, pos) else rest

unfoldable pub peak_map_height : ℕ → ℕ × ℕ
peak_map_height pos =
    if pos == 0 then (0, 0) else map_loop 64 (shr64 all_ones (leading_zeros pos)) 0 pos

pub sizes_loop : ℕ → ℕ → List ℕ → ℕ → List ℕ × ℕ
sizes_loop zero peak_size sizes size_left = (sizes, size_left)
sizes_loop (suc fuel) peak_size sizes size_left =
    let rest =
      sizes_loop fuel (peak_size / 2)
        (if leb peak_size size_left then sizes ++ (peak_size ∷ []) else sizes)
        (if leb peak_size size_left then size_left - peak_size else size_left) in
    if peak_size == 0 then (sizes, size_left) else rest

pub peak_sizes_height : ℕ → List ℕ × ℕ
peak_sizes_height size =
    if size == 0 then ([], 0) else sizes_loop 64 (shr64 all_ones (leading_zeros size)) [] size

pub peaks_loop : ℕ → ℕ → ℕ → ℕ → List ℕ → List ℕ × ℕ
peaks_loop zero peak_size num_left sum_prev_peaks peaks = (peaks, num_left)
peaks_loop (suc fuel) peak_size num_left sum_prev_peaks peaks =
    let rest =
      peaks_loop fuel (peak_size / 2)
        (if leb peak_size num_left then num_left - peak_size else num_left)
        (if leb peak_size num_left then wrap64 (sum_prev_peaks + peak_size) else sum_prev_peaks)
        (if leb peak_size num_left
          then peaks ++ (wrap64 (sum_prev_peaks + peak_size) ∷ [])
          else peaks) in
    if peak_size == 0 then (peaks, num_left) else rest

pub peaks : ℕ → List ℕ
peaks num =
    if num == 0
    then []
    else let (found, left) = peaks_loop 64 (shr64 all_ones (leading_zeros num)) num 0 [] in
      if ltb 0 left then [] else found

abbrev pub sum_leaves : List ℕ → ℕ
sum_leaves [] = 0
sum_leaves (n ∷ ns) = wrap64 (wrap64 (n + 1) / 2 + sum_leaves ns)

pub n_leaves : ℕ → ℕ
n_leaves size =
    let (sizes, height) = peak_sizes_height size in
    let nleaves = sum_leaves sizes in if height == 0 then nleaves else wrap64 (nleaves + 1)

unfoldable pub insertion_to_pmmr_index : ℕ → ℕ
insertion_to_pmmr_index sz =
    if sz == 0
    then 0
    else (let sz' = sz - 1 in wrap64 (sub64 (wrap64 (2 * sz')) (count_ones sz') + 1))

unfoldable pub bintree_postorder_height : ℕ → ℕ
bintree_postorder_height num = if num == 0 then 0 else (peak_map_height (num - 1)).1

unfoldable pub is_leaf : ℕ → Bool
is_leaf pos = bintree_postorder_height pos == 0

-- `1 << height`: no height reaches 64.
abbrev pub peak_at : ℕ → ℕ
peak_at height = 2 ^ height

pub family : ℕ → ℕ × ℕ
family pos =
    let (peak_map, height) = peak_map_height (sub64 pos 1) in
    let peak = peak_at height in
    if has_peak peak_map peak
    then (wrap64 (pos + 1), sub64 (wrap64 (pos + 1)) (wrap64 (2 * peak)))
    else (wrap64 (pos + wrap64 (2 * peak)), sub64 (wrap64 (pos + wrap64 (2 * peak))) 1)

pub is_left_sibling : ℕ → Bool
is_left_sibling pos =
    let (peak_map, height) = peak_map_height (sub64 pos 1) in
    not (has_peak peak_map (peak_at height))

-- A node of height 63 stands behind every 63-bit position, so 64 rounds are enough.
pub path_loop : ℕ → ℕ → ℕ → ℕ → ℕ → List ℕ
path_loop zero peak_map peak current last_pos = []
path_loop (suc fuel) peak_map peak current last_pos =
    let step = if has_peak peak_map peak then 1 else wrap64 (2 * peak) in
    let rest = path_loop fuel peak_map (shl1 peak) (wrap64 (current + step)) last_pos in
    if leb current last_pos then current ∷ rest else []

pub path : ℕ → ℕ → List ℕ
path pos last_pos =
    let (peak_map, height) = peak_map_height (sub64 pos 1) in
    path_loop 64 peak_map (peak_at height) pos last_pos

pub branch_loop : ℕ → ℕ → ℕ → ℕ → ℕ → List (ℕ × ℕ)
branch_loop zero peak_map peak current last_pos = []
branch_loop (suc fuel) peak_map peak current last_pos =
    let next =
      if has_peak peak_map peak
      then wrap64 (current + 1)
      else wrap64 (current + wrap64 (2 * peak)) in
    let sibling = if has_peak peak_map peak then sub64 next (wrap64 (2 * peak)) else sub64 next 1 in
    let rest = branch_loop fuel peak_map (shl1 peak) next last_pos in
    if ltb current last_pos
    then (if ltb last_pos next then [] else ((next, sibling) ∷ rest))
    else []

pub family_branch : ℕ → ℕ → List (ℕ × ℕ)
family_branch pos last_pos =
    let (peak_map, height) = peak_map_height (sub64 pos 1) in
    branch_loop 64 peak_map (peak_at height) pos last_pos

pub bintree_rightmost : ℕ → ℕ
bintree_rightmost num = sub64 num (bintree_postorder_height num)

pub bintree_leftmost : ℕ → ℕ
bintree_leftmost num = sub64 (wrap64 (num + 2)) (wrap64 (2 * 2 ^ bintree_postorder_height num))
