-- ===== src/Store.antt =====
-- What the gateway shares: the tables of PostgreSQL, the projections of Redis, and the actions on
-- both.
pub mod Tables
pub mod Redis
pub mod Action
pub mod Rows
pub mod Projection
