-- ===== src/Audit.antt =====
-- The read side of the access log (internal/audit/read.go).
pub mod Events
mod Order
mod Cursor
mod Pages
mod Walk
mod Tests
