-- ===== src/StateMachine.antt =====
-- apps/execution_gateway/src/execution_gateway/state_machine: the two state machines.
pub mod OrderStatus
pub mod Conditional
pub mod Graph
