-- ===== src/Store/PruneList.antt =====
-- `PruneList` of store/src/prune_list.rs: its bitmaps and caches, without its file.
pub mod Below
pub mod Sums
pub mod Shift
pub mod Add
use vcash.Prelude.{
  filter, ℕ, zero, suc, ◌+◌, ◌-◌, ◌*◌, ◌^◌, Bool, true, false, ◌||◌, List, [], ◌∷◌, ◌++◌, length,
  get_elem?, Option, none, some, ltb, ◌==◌, if◌then◌else◌, wrap64,
}
use vcash.Transaction.Features.{any}
use vcash.Pmmr.Position.{bintree_postorder_height, family, path}
use vcash.Store.Bitmap.{Bitmaps, as_u32, unwrap_or, positions}

abbrev pub is_empty_list {ℓ} : {A : Type ℓ} → List A → Bool
is_empty_list [] = true
is_empty_list (x ∷ xs) = false

module _ (m : Bitmaps) where
  pub record PruneList : Type 0 where
    pub bitmap : m.Bitmap
    pub pruned_cache : m.Bitmap
    pub shift_cache : List ℕ
    pub leaf_shift_cache : List ℕ

  unfoldable pub new_prune_list : m.Bitmap → PruneList
  new_prune_list bitmap = record {
    bitmap = m.remove 0 bitmap;
    pruned_cache = m.create;
    shift_cache = [];
    leaf_shift_cache = [];
  }

  abbrev pub is_empty : m.Bitmap → Bool
  is_empty bitmap = is_empty_list (m.iter bitmap)

  abbrev pub is_pruned_root : ℕ → m.Bitmap → Bool
  is_pruned_root pos bitmap = m.has (as_u32 pos) bitmap

  -- `get_shift` and `get_leaf_shift` differ only in the cache that they read. An index out of range of
  -- an empty cache is a panic in the code, and 0 here.
  unfoldable pub cached_shift : m.Bitmap → List ℕ → ℕ → ℕ
  cached_shift bitmap cache pos =
      let idx = m.rank bitmap (as_u32 pos) in
      if is_empty bitmap || (idx == 0)
      then 0
      else unwrap_or 0
          (get_elem? cache ((if ltb (length cache) idx then length cache else idx) - 1))

  abbrev pub get_shift : ℕ → PruneList → ℕ
  get_shift pos p = cached_shift p.bitmap p.shift_cache pos

  abbrev pub get_leaf_shift : ℕ → PruneList → ℕ
  get_leaf_shift pos p = cached_shift p.bitmap p.leaf_shift_cache pos

  abbrev pub get_total_shift : PruneList → ℕ
  get_total_shift p = get_shift (unwrap_or 0 (m.maximum p.bitmap)) p

  abbrev pub get_total_leaf_shift : PruneList → ℕ
  get_total_leaf_shift p = get_leaf_shift (unwrap_or 0 (m.maximum p.bitmap)) p

  -- The nodes below a root, and the leaves below one that is no leaf itself.
  abbrev pub node_shift : ℕ → ℕ
  node_shift pos = 2 * (2 ^ bintree_postorder_height pos - 1)

  abbrev pub leaf_shift : ℕ → ℕ
  leaf_shift pos =
      let height = bintree_postorder_height pos in if height == 0 then 0 else 2 ^ height

  -- The loop over the roots, on the cache so far.
  pub shift_loop : (ℕ → ℕ) → m.Bitmap → List ℕ → List ℕ → List ℕ
  shift_loop shift bitmap [] cache = cache
  shift_loop shift bitmap (pos ∷ rest) cache =
      let prev_shift = cached_shift bitmap cache (pos - 1) in
      let curr_shift = if is_pruned_root pos bitmap then shift pos else 0 in
      shift_loop shift bitmap rest (cache ++ (wrap64 (prev_shift + curr_shift) ∷ []))

  unfoldable pub shifts : (ℕ → ℕ) → m.Bitmap → List ℕ
  shifts shift bitmap = shift_loop shift bitmap (filter (λ x. ltb 0 x) (m.iter bitmap)) []

  abbrev pub build_shift_cache : PruneList → PruneList
  build_shift_cache p =
      if is_empty p.bitmap then p else record p { shift_cache = shifts node_shift p.bitmap }

  abbrev pub build_leaf_shift_cache : PruneList → PruneList
  build_leaf_shift_cache p =
      if is_empty p.bitmap then p else record p { leaf_shift_cache = shifts leaf_shift p.bitmap }

  -- The loop of `build_pruned_cache`.
  pub pruned_loop : m.Bitmap → ℕ → List ℕ → m.Bitmap → m.Bitmap
  pruned_loop bitmap maximum [] cache = cache
  pruned_loop bitmap maximum (pos ∷ rest) cache = pruned_loop bitmap maximum rest (
      if any (λ x. m.has (as_u32 x) bitmap) (path pos maximum)
      then m.add (as_u32 pos) cache
      else cache)

  -- `1..(maximum + 1)` on 32 bits: for the maximum 2^32 - 1 the sum is 0 in a release build, which makes
  -- the range empty, and a panic in a debug build.
  abbrev pub build_pruned_cache : PruneList → PruneList
  build_pruned_cache p =
      let maximum = unwrap_or 0 (m.maximum p.bitmap) in
      if is_empty p.bitmap then p else record p {
        pruned_cache =
            pruned_loop p.bitmap maximum (positions 1 (as_u32 (maximum + 1) - 1)) m.create;
      }

  unfoldable pub init_caches : PruneList → PruneList
  init_caches p = build_pruned_cache (build_leaf_shift_cache (build_shift_cache p))

  -- The loop of `add`, on a number of rounds.
  pub add_loop : ℕ → ℕ → PruneList → Option PruneList
  add_loop zero current p = none
  add_loop (suc fuel) current p =
      let (parent, sibling) = family current in
      let climb = add_loop fuel parent (record p {
        bitmap = m.remove (as_u32 sibling) p.bitmap;
        pruned_cache = m.add (as_u32 current) p.pruned_cache;
      }) in
      if m.has (as_u32 sibling) p.bitmap || m.has (as_u32 sibling) p.pruned_cache
      then climb
      else some (record p {
        bitmap = m.add (as_u32 current) p.bitmap;
        pruned_cache = m.add (as_u32 current) p.pruned_cache;
      })

  abbrev pub add : ℕ → PruneList → Option PruneList
  add pos p = add_loop 32 pos p

  abbrev pub is_pruned : ℕ → PruneList → Bool
  is_pruned pos p = m.has (as_u32 pos) p.pruned_cache

  abbrev pub cardinality : PruneList → ℕ
  cardinality p = length (m.iter p.bitmap)
