-- ===== src/Pmmr.antt =====
-- The prunable Merkle Mountain Range: core/src/core/pmmr/ and core/src/core/merkle_proof.rs.
pub mod Position
pub mod Backend
pub mod Tree
