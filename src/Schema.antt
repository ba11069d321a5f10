-- ===== src/Schema.antt =====
-- packages/schemas/src/schemas: the enumerations, the order and the checks on it.
pub mod Enums
pub mod Statuses
pub mod Decimal
pub mod Order
pub mod Validate
pub mod Normal
