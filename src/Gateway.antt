-- ===== src/Gateway.antt =====
-- The gateway as a whole: its processes share the two tables, and their queries come in any order.
pub mod Steps
pub mod Runs
pub mod Invariant
pub mod Soundness
pub mod Handlers
pub mod Workers
pub mod Confirming
pub mod Transfers
pub mod Processes
pub mod Interleaved
