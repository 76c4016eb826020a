-- ===== src/Packet.antt =====
-- The package `packet`: the frozen scope and the append-only history of a work packet.
pub mod Types
pub mod Apply
pub mod Store
pub mod World
pub mod Loading
pub mod Refresh
pub mod Batch
pub mod Tracker
pub mod Samples
