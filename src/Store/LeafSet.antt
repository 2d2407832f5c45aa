-- ===== src/Store/LeafSet.antt =====
-- `LeafSet` of store/src/leaf_set.rs: its bitmap and the backup of it, without its file.
pub mod Rewind
use vcash.Prelude.{
  filter, ℕ, zero, suc, ◌+◌, Bool, true, false, not, ◌&&◌, List, [], ◌∷◌, length, map,
}
use vcash.Pmmr.Position.{is_leaf}
use vcash.Store.Bitmap.{Bitmaps, as_u32, unwrap_or, positions}
use vcash.Store.PruneList.{PruneList, is_pruned}

module _ (m : Bitmaps) where
  pub record LeafSet : Type 0 where
    pub bitmap : m.Bitmap
    pub bitmap_bak : m.Bitmap

  unfoldable pub unpruned_pre_cutoff : ℕ → PruneList m → m.Bitmap
  unpruned_pre_cutoff cutoff_pos prune_list = m.from_iter (
      map as_u32
        (filter (λ x. is_leaf x && not (is_pruned m x prune_list)) (positions 1 cutoff_pos)))

  -- The first two steps of both `removed_pre_cutoff` and `rewind`.
  unfoldable pub rewound : ℕ → m.Bitmap → m.Bitmap → m.Bitmap
  rewound cutoff_pos rewind_rm_pos bitmap =
      m.or_inplace
        (m.remove_range_closed (as_u32 (cutoff_pos + 1)) (unwrap_or 0 (m.maximum bitmap)) bitmap)
        rewind_rm_pos

  unfoldable pub removed_pre_cutoff : ℕ → m.Bitmap → PruneList m → LeafSet → m.Bitmap
  removed_pre_cutoff cutoff_pos rewind_rm_pos prune_list s =
      m.and (m.flip 1 (cutoff_pos + 1) (rewound cutoff_pos rewind_rm_pos s.bitmap))
        (unpruned_pre_cutoff cutoff_pos prune_list)

  unfoldable pub rewind : ℕ → m.Bitmap → LeafSet → LeafSet
  rewind cutoff_pos rewind_rm_pos s = record s {
    bitmap = rewound cutoff_pos rewind_rm_pos s.bitmap;
  }

  abbrev pub add : ℕ → LeafSet → LeafSet
  add pos s = record s { bitmap = m.add (as_u32 pos) s.bitmap }

  abbrev pub remove : ℕ → LeafSet → LeafSet
  remove pos s = record s { bitmap = m.remove (as_u32 pos) s.bitmap }

  -- `flush`, without the file.
  abbrev pub flush : LeafSet → LeafSet
  flush s = record s { bitmap_bak = s.bitmap }

  abbrev pub discard : LeafSet → LeafSet
  discard s = record s { bitmap = s.bitmap_bak }

  abbrev pub includes : ℕ → LeafSet → Bool
  includes pos s = m.has (as_u32 pos) s.bitmap

  abbrev pub cardinality : LeafSet → ℕ
  cardinality s = length (m.iter s.bitmap)
