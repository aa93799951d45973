-- ===== src/Checkout.antt =====
-- Payments and the completion of a sale: backend/internal/checkout.
pub mod Errors
pub mod Money
pub mod Totals
pub mod Accepts
pub mod Payments
pub mod Fair
pub mod Input
pub mod Requests
pub mod Paid
pub mod Stock
pub mod Mapper
pub mod Service
pub mod Aggregates
pub mod Booked
pub mod Keeps
pub mod Once
pub mod Completion
pub mod Keys
pub mod Sums
