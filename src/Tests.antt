-- ===== src/Tests.antt =====
-- Concrete runs: an environment that keeps the laws, and the theorems at small databases.
pub mod Samples
mod Runs
mod Checkouts
mod Texts
mod Creations
mod Stocks
mod Sessions
