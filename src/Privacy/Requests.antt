-- ===== src/Privacy/Requests.antt =====
-- internal/privacy/requests.go: data subject requests.
pub mod Create
pub mod Cancel
pub mod Canceled
pub mod Replay
