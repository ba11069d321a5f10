-- ===== src/Witnesses.antt =====
-- Each property at a concrete input.
pub mod Rules
pub mod Projection
pub mod Gateway
pub mod Edges
pub mod Batch
pub mod Outbox
pub mod Core
pub mod Pages
