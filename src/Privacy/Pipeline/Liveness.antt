-- ===== src/Privacy/Pipeline/Liveness.antt =====
-- A run without failures ends (internal/privacy/pipeline.go).
mod Steps
pub mod Gates
pub mod Run
pub mod Done
