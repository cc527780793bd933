-- ===== src/Iam/Safe.antt =====
-- Relations between the tables that every operation of internal/iam keeps.
pub mod Writes
pub mod Rules
pub mod Tables
pub mod Keys
pub mod Run
