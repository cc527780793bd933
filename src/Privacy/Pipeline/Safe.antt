-- ===== src/Privacy/Pipeline/Safe.antt =====
-- Relations that a run of the pipeline keeps.
pub mod Steps
pub mod Run
