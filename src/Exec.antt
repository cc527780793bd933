-- ===== src/Exec.antt =====
-- Effectful Go code: each operation is an action on a database `S` and a clock. A statement to the
-- database may fail and takes time; the `ticks` say what comes, so a theorem over every list of
-- ticks holds for every point at which a statement fails, a context is cancelled or a worker dies.
mod Defs
pub mod Grows
pub mod Yields
pub mod From
pub mod Succeeds
unfoldable pub use Defs.*
