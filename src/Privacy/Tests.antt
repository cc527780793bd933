-- ===== src/Privacy/Tests.antt =====
-- Concrete states of the engine's tables, and runs on them.
mod World
mod Pipeline
mod System
mod Requests
mod Delivery
