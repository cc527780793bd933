-- ===== src/Privacy/Holds.antt =====
-- internal/privacy/holds.go: legal holds.
pub mod Ops
pub mod Resume
