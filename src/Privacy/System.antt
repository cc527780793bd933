-- ===== src/Privacy/System.antt =====
-- The privacy engine as a whole: sequences of the operations of `Service` (internal/privacy/
-- service.go) and of the workers' runs, each of which may fail at any statement.
pub mod Ops
mod Safe
mod Workers
mod Sequence
pub mod Deletions
pub mod Evidence
