-- ===== src/Net.antt =====
-- The guard of outbound calls and the address of a caller (internal/netguard).
pub mod Addr
pub mod Guard
pub mod ClientIp
mod Public
mod Zones
mod Forwarded
mod Tests
