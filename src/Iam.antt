-- ===== src/Iam.antt =====
-- Roles, role assignments, API keys and the decision who may do what (internal/iam, and the handlers
-- of internal/api/iam.go that grant).
pub mod Db
pub mod Roles
pub mod Assignments
pub mod Keys
pub mod Authorizer
pub mod Handlers
pub mod Ops
pub mod Safe
pub mod History
pub mod OwnerOnly
pub mod Decision
pub mod Revoked
pub mod Escalation
pub mod Tests
