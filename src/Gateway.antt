-- ===== src/Gateway.antt =====
-- apps/execution_gateway/src/execution_gateway/gateway: the services that submit and cancel orders.
pub mod Transition
pub mod Client
pub mod Core
pub mod Submission
pub mod Leverage
pub mod Batch
pub mod Cancellation
pub mod Consistency
pub mod StatusChange
pub mod Terminal
pub mod Undo
pub mod Intake
pub mod Cancels
pub mod Outcomes
pub mod Conflict
