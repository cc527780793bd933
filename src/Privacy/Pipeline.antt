-- ===== src/Privacy/Pipeline.antt =====
-- internal/privacy/pipeline.go: the erasure pipeline.
pub mod Common
pub mod Credentials
pub mod Evidence
pub mod Vault
pub mod Runner
pub mod Poll
pub mod Gates
pub mod Receipts
pub mod Safe
pub mod Isolation
pub mod Completion
pub mod Liveness
