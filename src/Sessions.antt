-- ===== src/Sessions.antt =====
-- Sessions and their refresh tokens: backend/internal/sessions.
pub mod Errors
pub mod Input
pub mod Service
pub mod Rotate
pub mod Revoke
pub mod Guard
pub mod Changes
pub mod Statements
pub mod Keeps
pub mod Commands
pub mod Mitigation
pub mod Reuse
pub mod Everywhere
