-- ===== src/Chain.antt =====
-- The block and header pipeline: chain/src/pipe.rs.
pub mod Types
pub mod Header
pub mod Fork
pub mod Process
pub mod Orphans
pub mod Facade
mod Runs
