-- ===== src/Auth/Refresh.antt =====
-- Refresh tokens (internal/auth/grant.go and the statements of store.go that it runs).
pub mod Tables
pub mod Validity
pub mod Grant
mod Rows
mod Family
mod Ended
mod Rotated
mod Outcome
mod Redeem
mod Served
mod Reuse
mod Tests
