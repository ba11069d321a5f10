-- ===== src/Ids.antt =====
-- packages/common/src/common/ids.py: the identifiers of orders, signals and executions.
pub mod Binary
pub mod Snowflake
pub mod Unique
pub mod Series
