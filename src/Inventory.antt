-- ===== src/Inventory.antt =====
-- The stock of a store and its movements: backend/internal/inventory.
pub mod Ledger
pub mod Stock
pub mod Changes
pub mod Recorded
pub mod Errors
pub mod Input
pub mod Mapper
pub mod Service
pub mod Keeps
pub mod Short
