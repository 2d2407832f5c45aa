-- ===== src/Transaction.antt =====
-- Transactions: core/src/core/transaction.rs.
pub mod Types
pub mod Sorting
pub mod Body
pub mod Features
pub mod CutThrough
pub mod Kernel
pub mod Members
pub mod Aggregate
pub mod Toy
