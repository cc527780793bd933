-- ===== src/Privacy/Pipeline/Completion.antt =====
-- A request is DONE only when every step of the pipeline has left its evidence.
pub mod Quiet
pub mod Run
pub mod Done
