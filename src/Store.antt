-- ===== src/Store.antt =====
-- The files of a Merkle mountain range: store/src.
pub mod Bitmap
pub mod PruneList
pub mod LeafSet
mod Runs
