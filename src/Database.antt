-- ===== src/Database.antt =====
-- The database of backend/internal/platform/database: its rows, its tables and its statements.
pub mod Rows
pub mod Identity
pub mod Tables
pub mod Lookup
pub mod Store
pub mod Ensures
pub mod Sales
pub mod Laws
pub mod SaleItems
pub mod Inventory
pub mod Idempotence
pub mod Payments
pub mod Fiscal
pub mod Frames
pub mod Sessions
pub mod Quiet
