-- ===== src/Pool.antt =====
-- The transaction pool: pool/src.
pub mod Types
pub mod Entries
pub mod Buckets
pub mod Linked
pub mod Accept
mod Runs
