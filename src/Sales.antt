-- ===== src/Sales.antt =====
-- Open sales and their items: backend/internal/sales.
pub mod Errors
pub mod Money
pub mod Input
pub mod Paging
pub mod Pages
pub mod Printed
pub mod Mapper
pub mod Service
pub mod Spec
pub mod Totals
pub mod Pricing
pub mod Canonical
pub mod Parsed
pub mod Consistency
