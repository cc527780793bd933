-- ===== src/Privacy/Retention.antt =====
-- internal/privacy/retention.go: what is destroyed when its period has passed.
pub mod Sweep
pub mod Gate
