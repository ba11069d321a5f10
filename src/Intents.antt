-- ===== src/Intents.antt =====
-- apps/execution_gateway/src/execution_gateway/handlers: what becomes of the intents of strategies.
pub mod Handler
pub mod Once
