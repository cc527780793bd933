-- ===== src/Iam/Escalation.antt =====
-- No one gains a permission that nobody in the group of callers held (internal/api/security.go,
-- grantCeiling, and the handlers of internal/api/iam.go).
pub mod Ceiling
pub mod Gains
pub mod Clean
pub mod Writes
pub mod GrantWrites
pub mod Grants
pub mod Run
