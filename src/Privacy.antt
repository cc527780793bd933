-- ===== src/Privacy.antt =====
-- internal/privacy: the compliance engine.
pub mod Duration
pub mod Domain
pub mod Policy
pub mod Db
pub mod Pipeline
pub mod Requests
pub mod Holds
pub mod Tasks
pub mod Retention
pub mod System
mod Tests
