-- ===== src/Privacy/Pipeline/Isolation.antt =====
-- An erasure run touches one person and one request (internal/privacy/pipeline.go).
pub mod Spares
pub mod Frame
pub mod Credentials
pub mod Evidence
pub mod Vault
pub mod Run
