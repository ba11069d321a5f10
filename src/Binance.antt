-- ===== src/Binance.antt =====
-- apps/execution_gateway/src/execution_gateway/adapters/binance: the requests that are sent.
pub mod Router
pub mod Requests
