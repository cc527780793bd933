-- ===== src/Privacy/Tasks.antt =====
-- internal/privacy/tasks.go: delivery of erasure tasks to webhooks and connectors.
pub mod Backoff
pub mod Delivery
pub mod Bounds
