-- ===== src/Auth.antt =====
-- The authentication server (internal/auth), as far as it is modelled.
pub mod Attempts
pub mod Refresh
pub mod Guesses
pub mod Tests
